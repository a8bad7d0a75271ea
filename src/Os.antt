-- ===== src/Os.antt =====
-- The world around the program. What the operating system answers to the n-th call of a run is
-- the argument `Os`, so every theorem holds for all answers; `World` counts the calls and logs
-- what leaves the program. `Cmd` is the state monad of a run.
pub mod Ends
use uvg_torrent.Base.{
  ℕ, zero, suc, ◌+◌, ◌-◌, ◌%◌, ◌≡◌, Bool, Option, List, [], ◌∷◌, ◌++◌, length, Run, ok, fault,
  halted, out_of_fuel, Returns, arith,
}

-- `none` and `false` stand for -1, or for NULL of `gethostbyname`.
pub record Os : Type 0 where
  pub socket : ℕ → Option ℕ
  pub gethostbyname : ℕ → Option (List (List ℕ))
  pub bind : ℕ → Bool
  pub getsockname : ℕ → Bool
  pub connect : ℕ → Bool
  pub send : ℕ → Bool
  pub recv : ℕ → Option (List ℕ)
  pub rand : ℕ → ℕ
  -- what an uninitialised byte holds: the time and the offset
  pub stack : ℕ → ℕ → ℕ
  -- the address of the array that a function declares at this time
  pub frame : ℕ → ℕ

pub data Event : Type 0 where
  opened closed : ℕ → Event
  sent : ℕ → List ℕ → Event

pub record World : Type 0 where
  pub now : ℕ
  pub log : List Event

abbrev pub Cmd : Type 0 → Type 0
Cmd A = World → Run (A × World)

abbrev pub pure : {A : Type 0} → A → Cmd A
pure a w = ok (a, w)

abbrev pub and_then : {A B : Type 0} → Run (A × World) → (A → Cmd B) → Run (B × World)
and_then (ok (a, w)) f = f a w
and_then fault f = fault
and_then halted f = halted
and_then out_of_fuel f = out_of_fuel

infixl 5 ◌>>=◌ ◌>>◌
abbrev pub ◌>>=◌ : {A B : Type 0} → Cmd A → (A → Cmd B) → Cmd B
◌>>=◌ m f w = and_then (m w) f

abbrev pub ◌>>◌ : {B : Type 0} → Cmd (Unit {0}) → Cmd B → Cmd B
m >> k = m >>= λ _. k

abbrev pub lift : {A : Type 0} → Run A → Cmd A
lift (ok a) w = ok (a, w)
lift fault w = fault
lift halted w = halted
lift out_of_fuel w = out_of_fuel

-- One call of the system: its answer at this time.
unfoldable pub ask : {A : Type 0} → (ℕ → A) → Cmd A
ask answer w = ok (answer w.now, record w { now = w.now + 1 })

unfoldable pub emit : Event → Cmd (Unit {0})
emit e w = ok (tt, record w { log = w.log ++ e ∷ [] })

-- `n` bytes of uninitialised memory from offset `i` on.
unfoldable pub uninitialised : (ℕ → ℕ) → ℕ → ℕ → List ℕ
uninitialised garbage i zero = []
uninitialised garbage i (suc n) = garbage i % 256 ∷ uninitialised garbage (i + 1) n

-- An array of `n` uninitialised bytes into which `bytes` are received.
unfoldable pub received_into : (ℕ → ℕ) → ℕ → List ℕ → List ℕ
unfolding uninitialised
received_into garbage n bytes = bytes ++ uninitialised garbage (length bytes) (n - length bytes)

-- The datagrams and segments sent so far.
unfoldable pub sent_count : List Event → ℕ
sent_count [] = 0
sent_count (opened fd ∷ es) = sent_count es
sent_count (closed fd ∷ es) = sent_count es
sent_count (sent fd bytes ∷ es) = suc (sent_count es)

pub sent_count-append :
    (es es' : List Event) → sent_count (es ++ es') ≡ sent_count es + sent_count es'
unfolding sent_count
sent_count-append [] es' = omega arith
sent_count-append (opened fd ∷ es) es' = sent_count-append es es'
sent_count-append (closed fd ∷ es) es' = sent_count-append es es'
sent_count-append (sent fd bytes ∷ es) es' = omega (arith, sent_count-append es es')

-- A run that does not use up its fuel, and whose result satisfies `P` if it returns.
abbrev pub Finishes : {A : Type 0} → (A → World → Type 0) → Run (A × World) → Type 0
Finishes P (ok (a, w)) = P a w
Finishes P fault = Unit
Finishes P halted = Unit
Finishes P out_of_fuel = ⊥

pub Finishes-bind :
    {A B : Type 0} (P : A → World → Type 0) (Q : B → World → Type 0) (r : Run (A × World))
    (f : A → Cmd B)
    → Finishes P r
    → ((a : A) (w : World) → P a w → Finishes Q (f a w))
    → Finishes Q (and_then r f)
Finishes-bind P Q (ok (a, w)) f p next = next a w p
Finishes-bind P Q fault f p next = tt
Finishes-bind P Q halted f p next = tt
Finishes-bind P Q out_of_fuel f p next = p

pub Returns-then :
    {A B : Type 0} (P : A × World → Type 0) (Q : B × World → Type 0) (r : Run (A × World))
    (f : A → Cmd B)
    → Returns P r
    → ((a : A) (w : World) → P (a, w) → Returns Q (f a w))
    → Returns Q (and_then r f)
Returns-then P Q (ok (a, w)) f p next = next a w p
Returns-then P Q fault f p next = elim p [ ]
Returns-then P Q halted f p next = elim p [ ]
Returns-then P Q out_of_fuel f p next = elim p [ ]

pub Returns-lift :
    {A : Type 0} (P : A → Type 0) (r : Run A) (w : World)
    → Returns P r
    → Returns (λ (s : A × World). P s.0) (lift r w)
Returns-lift P (ok a) w p = p
Returns-lift P fault w p = elim p [ ]
Returns-lift P halted w p = elim p [ ]
Returns-lift P out_of_fuel w p = elim p [ ]
