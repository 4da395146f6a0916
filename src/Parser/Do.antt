-- ===== src/Parser/Do.antt =====
-- The sequence of two steps of the parser, which `do` stands for in the modules of parser.c.
use minilua.Parser.{Parse, bind, parsed, endless}

infixl 5 ◌>>=◌ ◌>>◌
abbrev pub ◌>>=◌ : {A B : Type 0} → Parse A → (A → Parse B) → Parse B
◌>>=◌ m f p = bind (m p) f

abbrev pub ◌>>◌ : {A B : Type 0} → Parse A → Parse B → Parse B
◌>>◌ m k p = bind (m p) (λ _. k)

-- to return a value
unfoldable pub give : {A : Type 0} → A → Parse A
give a p = parsed a p

-- The rounds have run out.
unfoldable pub never : {A : Type 0} → Parse A
never p = endless
