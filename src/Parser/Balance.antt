-- ===== src/Parser/Balance.antt =====
-- How deep the parser is in scopes and in frames of phi functions, and what moves it up and down:
-- the rules for a step after another, and the steps that stay where they are.
pub mod Code
pub mod Tokens
pub mod Scopes
pub mod Frames
pub mod Functions
pub mod Tables
pub mod Exprs
pub mod Statements
pub mod Blocks
use minilua.Common.{
  ℕ, zero, suc, ◌+◌, ◌-◌, ◌≤◌, ◌≡◌, refl, ◌∙◌, sym, ap, subst, Bool, true, false, ◌==◌, leb,
  if◌then◌else◌, List, [], ◌∷◌, Option, none, some, Run, done, fault, stuck, ◌⊎◌, inl, inr, ◌<◌,
  arith,
}
use minilua.Ir.{Ir}
use minilua.Parser.{
  Parser, Parse, Parsed, Name, parsed, exited, crashed, hung, endless, bind, run, on_ir,
}
use minilua.Parser.Do.{◌>>=◌, ◌>>◌, give, never}

-- `i` marks and names between them have been put on the stack `below`.
abbrev pub Stack : List (Option Name) → ℕ → List (Option Name) → Type 0
Stack below zero s = s ≡ below
Stack below (suc i) [] = ⊥
Stack below (suc i) (some t ∷ s) = Stack below (suc i) s
Stack below (suc i) (none ∷ s) = Stack below i s

-- `i` scopes and at least `k` frames further in than `base`
pub record Level (base : Parser) (i k : ℕ) (p : Parser) : Type 0 where
  pub depth : p.depth ≡ base.depth + i
  pub stack : Stack base.scope i p.scope
  pub frames : base.cdepth + k ≤ p.cdepth
  pub in_step : p.cdepth ≡ p.c.phidepth

-- what holds of the parser if the run returns
abbrev pub Ends {ℓ} : {A : Type 0} → (Parser → Type ℓ) → Parsed A → Type ℓ
Ends Q (parsed a p) = Q p
Ends Q exited = Unit
Ends Q crashed = Unit
Ends Q hung = Unit
Ends Q endless = Unit

pub data Leaves {A S : Type 0} (Q : S → Type 0) : Run (A × S) → Type 0 where
  left : {a : A} {x : S} → Q x → Leaves Q (done (a, x))
  faulted : Leaves Q fault
  looped : Leaves Q stuck

module _ (base : Parser) where
  -- from one level to another
  pub record Moves (A : Type 0) (i k j l : ℕ) (m : Parse A) : Type 0 where
    pub apply : (p : Parser) → Level base i k p → Ends (Level base j l) (m p)

  abbrev pub Stays : {A : Type 0} → Parse A → Type 0
  Stays {A} m = (i k : ℕ) → Moves A i k i k m

module _ {A : Type 0} (Q : Parser → Type 0) where
  pub Ends-bind :
      {B : Type 0} (Q' : Parser → Type 0) (r : Parsed A) (f : A → Parse B)
      → Ends Q r
      → ((a : A) (p : Parser) → Q p → Ends Q' (f a p))
      → Ends Q' (bind r f)
  Ends-bind Q' (parsed a p) f e h = h a p e
  Ends-bind Q' exited f e h = tt
  Ends-bind Q' crashed f e h = tt
  Ends-bind Q' hung f e h = tt
  Ends-bind Q' endless f e h = tt

  pub Ends-map :
      (Q' : Parser → Type 0) (r : Parsed A) → ((p : Parser) → Q p → Q' p) → Ends Q r → Ends Q' r
  Ends-map Q' (parsed a p) h e = h p e
  Ends-map Q' exited h e = tt
  Ends-map Q' crashed h e = tt
  Ends-map Q' hung h e = tt
  Ends-map Q' endless h e = tt

  pub Ends-run :
      (r : Run (A × Parser))
      → Leaves Q r
      → Ends Q (elim r [ done r ↦ parsed r.0 r.1 | fault ↦ crashed | stuck ↦ hung ])
  Ends-run _ (left e) = e
  Ends-run _ faulted = tt
  Ends-run _ looped = tt

module _ {base : Parser} where
  pub seq :
      {A B : Type 0} {i k i' k' j l : ℕ} {m : Parse A} {f : A → Parse B}
      → Moves base A i k i' k' m
      → ((a : A) → Moves base B i' k' j l (f a))
      → Moves base B i k j l (m >>= f)
  seq {i' = i'} {k' = k'} {j = j} {l = l} {m = m} {f = f} hm hf = record {
    apply = λ p h.
        Ends-bind (Level base i' k') (Level base j l) (m p) f (hm.apply p h)
          (λ a p'. (hf a).apply p');
  }

  pub branch :
      {A : Type 0} {i k j l : ℕ} (b : Bool) {m n : Parse A}
      → Moves base A i k j l m
      → Moves base A i k j l n
      → Moves base A i k j l (if b then m else n)
  branch true hm hn = hm
  branch false hm hn = hn

  pub give-Moves : {A : Type 0} (a : A) → Stays base (give a)
  unfolding give
  give-Moves a i k = record { apply = λ p h. h }

  pub never-Moves : {A : Type 0} {i k j l : ℕ} → Moves base A i k j l never
  unfolding never
  never-Moves = record { apply = λ p h. tt }

  -- fewer frames are asked for
  pub shed :
      {A : Type 0} {i k j l : ℕ} {m : Parse A}
      → Moves base A i k j (suc l) m
      → Moves base A i k j l m
  shed {j = j} {l = l} {m = m} h = record {
    apply = λ p lv.
        Ends-map (Level base j (suc l)) (Level base j l) (m p)
          (λ p' e. record {
            depth = e.depth;
            stack = e.stack;
            frames = omega arith;
            in_step = e.in_step;
          })
          (h.apply p lv);
  }

  pub run-Moves :
      {A : Type 0} {i k j l : ℕ} (f : Parser → Run (A × Parser))
      → ((p : Parser) → Level base i k p → Leaves (Level base j l) (f p))
      → Moves base A i k j l (run f)
  unfolding run
  run-Moves {j = j} {l = l} f h = record {
    apply = λ p lv. Ends-run (Level base j l) (f p) (h p lv);
  }

  pub after :
      {A B : Type 0} {m : Parse A} {f : A → Parse B}
      → Stays base m
      → ((a : A) → Stays base (f a))
      → Stays base (m >>= f)
  after hm hf i k = seq (hm i k) (λ a. hf a i k)

  pub either :
      {A : Type 0} (b : Bool) {m n : Parse A}
      → Stays base m
      → Stays base n
      → Stays base (if b then m else n)
  either true hm hn = hm
  either false hm hn = hn
