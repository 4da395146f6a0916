-- ===== src/Lex/Codes.antt =====
-- `token` and the codes of lex.h; a token of one character has that character for its type.
use minilua.Common.{ℕ, Option, some, Run, done}

-- `t->s` is where the text begins.
pub record Token : Type 0 where
  pub type : ℕ
  pub length : ℕ

abbrev pub token : ℕ → ℕ → Run (Option Token)
token t n = done (some (record { type = t; length = n }))

abbrev pub lex_num : ℕ
lex_num = 256

abbrev pub lex_blanks : ℕ
lex_blanks = 257

abbrev pub lex_comment : ℕ
lex_comment = 258

abbrev pub lex_id : ℕ
lex_id = 259

abbrev pub lex_str : ℕ
lex_str = 260

abbrev pub lex_eq : ℕ
lex_eq = 261

abbrev pub lex_ne : ℕ
lex_ne = 262

abbrev pub lex_ge : ℕ
lex_ge = 263

abbrev pub lex_le : ℕ
lex_le = 264

abbrev pub lex_not : ℕ
lex_not = 265

abbrev pub lex_do : ℕ
lex_do = 266

abbrev pub lex_end : ℕ
lex_end = 267

abbrev pub lex_while : ℕ
lex_while = 268

abbrev pub lex_repeat : ℕ
lex_repeat = 269

abbrev pub lex_until : ℕ
lex_until = 270

abbrev pub lex_if : ℕ
lex_if = 271

abbrev pub lex_then : ℕ
lex_then = 272

abbrev pub lex_elseif : ℕ
lex_elseif = 273

abbrev pub lex_else : ℕ
lex_else = 274

abbrev pub lex_for : ℕ
lex_for = 275

abbrev pub lex_in : ℕ
lex_in = 276

abbrev pub lex_function : ℕ
lex_function = 277

abbrev pub lex_local : ℕ
lex_local = 278

abbrev pub lex_return : ℕ
lex_return = 279

abbrev pub lex_break : ℕ
lex_break = 280

abbrev pub lex_nil : ℕ
lex_nil = 281

abbrev pub lex_false : ℕ
lex_false = 282

abbrev pub lex_true : ℕ
lex_true = 283

abbrev pub lex_and : ℕ
lex_and = 284

abbrev pub lex_or : ℕ
lex_or = 285

abbrev pub lex_cat : ℕ
lex_cat = 286

abbrev pub lex_vararg : ℕ
lex_vararg = 287
