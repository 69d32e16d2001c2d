-- ===== src/Main/Log.antt =====
-- What the log of the tasks of main.rs says: numbers that follow each other are spaced in time.
use wasabi_os.Common.{
  ℕ, suc, ◌+◌, ◌*◌, ◌/◌, ◌≤◌, ◌<◌, ◌≡◌, ◌≢◌, ◌∙◌, List, [], ◌∷◌, All, All-imp, arith,
}
use wasabi_os.Main.{
  Line, counted, failed, monitoring, input, State, counting, sleeping, serial, serial_sleeping,
  seconds, World, Answer,
}
use wasabi_os.Executor.{ready, pending}

-- If the line is one of the task k, its number is below i, and it is older than t by more than the
-- pause of the task, k seconds.
abbrev pub Past : ℕ → ℕ → ℕ → Line → Type 0
Past k i t (counted j u) = j / 100 ≡ k → (suc j ≤ i) × (u + seconds k < t)
Past k i t (failed e) = Unit
Past k i t monitoring = Unit
Past k i t (input v) = Unit

abbrev pub Follows : Line → List Line → Type 0
Follows (counted i t) log = All (Past (i / 100) i t) log
Follows (failed e) log = Unit
Follows monitoring log = Unit
Follows (input v) log = Unit

-- Every number comes after all numbers of its task that stand before it, which are smaller, by more
-- than the pause of the task.
abbrev pub Spaced : List Line → Type 0
Spaced [] = Unit
Spaced (line ∷ log) = Follows line log × Spaced log

-- The hundred of a task; 0 for the serial task.
abbrev pub kind : State → ℕ
kind (counting k n i) = k
kind (sleeping k n i deadline) = k
kind serial = 0
kind (serial_sleeping deadline) = 0

-- The numbers of the task k go from 100 k to 100 k + 3.
abbrev pub Own : State → Type 0
Own (counting k n i) = (1 ≤ k) × (100 * k ≤ i) × (i + n ≡ 100 * k + 4)
Own (sleeping k n i deadline) = (1 ≤ k) × (100 * k ≤ i) × (i + n ≡ 100 * k + 4)
Own serial = Unit
Own (serial_sleeping deadline) = Unit

abbrev pub next_number : State → ℕ
next_number (counting k n i) = i
next_number (sleeping k n i deadline) = i
next_number serial = 0
next_number (serial_sleeping deadline) = 0

-- The first time at which the next number may be printed, less one.
abbrev pub limit : State → ℕ
limit (counting k n i) = 0
limit (sleeping k n i deadline) = suc deadline
limit serial = 0
limit (serial_sleeping deadline) = 0

abbrev pub Fits : List Line → State → Type 0
Fits log s = All (Past (kind s) (next_number s) (limit s)) log

Past-later : (k i i' t t' : ℕ) (line : Line) → i ≤ i' → t ≤ t' → Past k i t line → Past k i' t' line
Past-later k i i' t t' (counted j u) hi ht h =
    λ e. let (below, older) = h e in (omega (arith, below), omega (arith, older))
Past-later k i i' t t' (failed e) hi ht h = tt
Past-later k i i' t t' monitoring hi ht h = tt
Past-later k i i' t t' (input v) hi ht h = tt

pub All-later :
    (k i i' t t' : ℕ) (log : List Line)
    → i ≤ i'
    → t ≤ t'
    → All (Past k i t) log
    → All (Past k i' t') log
All-later k i i' t t' log hi ht h =
    All-imp (Past k i t) (Past k i' t') log (λ line p. Past-later k i i' t t' line hi ht p) h

-- What a poll of the task s keeps for the tasks of other kinds.
abbrev pub KeepsOthers : State → List Line → List Line → Type 0
KeepsOthers s log log' = (q : State) → kind q ≢ kind s → Fits log q → Fits log' q

abbrev pub Polled : {D : Type 0} → State → World D → Answer D → Type 0
Polled s w (ready r, s', w') = Spaced w'.log × KeepsOthers s w.log w'.log
Polled s w (pending, s', w') =
    Spaced w'.log × KeepsOthers s w.log w'.log × (kind s' ≡ kind s) × Own s' × Fits w'.log s'

-- What a poll keeps, after steps that keep it already.
pub Polled-after :
    {D : Type 0} (s s2 : State) (w w2 : World D) (a : Answer D)
    → kind s2 ≡ kind s
    → KeepsOthers s w.log w2.log
    → Polled s2 w2 a
    → Polled s w a
Polled-after s s2 w w2 (ready r, s', w') e keeps p =
    (p.0, λ q differ fits. p.1 q (λ c. differ (c ∙ e)) (keeps q differ fits))
Polled-after s s2 w w2 (pending, s', w') e keeps p =
    (p.0, λ q differ fits. p.1 q (λ c. differ (c ∙ e)) (keeps q differ fits), p.2 ∙ e, p.3, p.4)
