-- ===== src/Parser/Grammar.antt =====
-- The functions of parser.c that call themselves through others; each is given to the bodies of the
-- others with fewer rounds, and the rounds of the loops of its own body are as many.
use minilua.Common.{ℕ, ◌^◌, ◌-◌}
use minilua.Parser.{Parse}

pub record Grammar : Type 0 where
  pub expr : Parse ℕ
  pub chunk : Parse ℕ
  pub cond : Parse ℕ
  pub rounds : ℕ

-- `INT_MIN`, in 32 bits
abbrev pub parse_none : ℕ
parse_none = 2 ^ 31

-- the `int` that `EXPECT(-1)` asks for, which is the type of no token
abbrev pub no_token : ℕ
no_token = 2 ^ 32 - 1
