-- ===== src/Os/Ends.antt =====
-- Runs that do not use up their fuel, and what they are put together from.
use uvg_torrent.Base.{Bool, true, false, if◌then◌else◌, Run, ok, fault, halted, out_of_fuel}
use uvg_torrent.Base
use uvg_torrent.Os.{Cmd, World, and_then, lift, Finishes, Finishes-bind}

abbrev pub Any : {A : Type 0} → A → World → Type 0
Any a w = Unit

-- Runs without fuel.
abbrev pub Ends : {A : Type 0} → Run A → Type 0
Ends (ok a) = Unit
Ends fault = Unit
Ends halted = Unit
Ends out_of_fuel = ⊥

pub lift-Ends : {A : Type 0} (r : Run A) (w : World) → Ends r → Finishes Any (lift r w)
lift-Ends (ok a) w h = tt
lift-Ends fault w h = tt
lift-Ends halted w h = tt
lift-Ends out_of_fuel w h = h

pub Ends-bind :
    {A B : Type 0} (r : Run A) (f : A → Run B)
    → Ends r
    → ((a : A) → Ends (f a))
    → Ends (Base.◌>>=◌ r f)
Ends-bind (ok a) f h next = next a
Ends-bind fault f h next = tt
Ends-bind halted f h next = tt
Ends-bind out_of_fuel f h next = h

pub Ends-if : {A : Type 0} (b : Bool) (r s : Run A) → Ends r → Ends s → Ends (if b then r else s)
Ends-if true r s hr hs = hr
Ends-if false r s hr hs = hs

-- One call after another.
pub Any-bind :
    {A B : Type 0} (r : Run (A × World)) (f : A → Cmd B)
    → Finishes Any r
    → ((a : A) (w : World) → Finishes Any (f a w))
    → Finishes Any (and_then r f)
Any-bind r f h next = Finishes-bind Any Any r f h λ a w done. next a w

pub Any-if :
    {A : Type 0} (b : Bool) (m n : Cmd A) (w : World)
    → Finishes Any (m w)
    → Finishes Any (n w)
    → Finishes Any ((if b then m else n) w)
Any-if true m n w hm hn = hm
Any-if false m n w hm hn = hn
