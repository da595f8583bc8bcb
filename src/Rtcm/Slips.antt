-- ===== src/Rtcm/Slips.antt =====
-- Slips of the RTCM converter of obsj/src/rtcm.rs: what `slip_hc` flags over a run of cells.
use convobs_rs.Base.{
  ℕ, ◌≡◌, refl, sym, ap, ◌∙◌, Bool, true, false, not, ◌&&◌, ◌||◌, ltb, nat_beq, if◌then◌else◌,
  unwrap_or, List, [], ◌∷◌, arith, ◌==◌, beq_refl, Bool-cases, inl, inr,
}
use convobs_rs.Base.Map.{Map, get, insert, remove, get-insert, get-remove}
use convobs_rs.Ids.{SignalKey, key_eq, key_beq_iff}
use convobs_rs.Rtcm.{Options}
use convobs_rs.Rtcm.Convert.{Converter, new, slip_hc}

-- A cell of a signal: its lock-time indicator, and whether it has a phase.
pub record Event : Type 0 where
  pub key : SignalKey
  pub lock : ℕ
  pub phase : Bool

unfoldable pub ll_flags : Converter → List Event → List Bool
ll_flags c [] = []
ll_flags c (e ∷ es) = let (c', ll) = slip_hc e.key e.lock e.phase c in ll ∷ ll_flags c' es

-- The lock time of a signal's last cell; `before` has the latest first.
abbrev pub last_lock : SignalKey → List Event → ℕ
last_lock k [] = 0
last_lock k (e ∷ before) = let rest = last_lock k before in if e.key == k then e.lock else rest

-- The lock time fell, or stayed at 0.
abbrev pub tells : ℕ → ℕ → Bool
tells prev lock = ltb lock prev || (nat_beq lock 0 && nat_beq prev 0)

-- A slip was told since the last cell with a phase.
abbrev pub untold : SignalKey → List Event → Bool
untold k [] = false
untold k (e ∷ before) =
    let rest = untold k before in
    if e.key == k then not e.phase && (tells (last_lock k before) e.lock || rest) else rest

-- The flags that the converter owes: of every slip, until a cell with a phase has it.
pub owed : List Event → List Event → List Bool
owed before [] = []
owed before (e ∷ es) =
    let rest = owed (e ∷ before) es in
    (tells (last_lock e.key before) e.lock || untold e.key before) ∷ rest

abbrev Follows : Converter → List Event → Type 0
Follows c before =
    (k : SignalKey)
    → (unwrap_or (get k c.lock) 0 ≡ last_lock k before)
      × (unwrap_or (get k c.slip) false ≡ untold k before)

toggled :
    (b : Bool) (j k : SignalKey) (m : Map SignalKey Bool)
    → unwrap_or (get k (if b then insert j true m else remove j m)) false
      ≡ (if j == k then b else unwrap_or (get k m) false)
toggled true j k m = ap (λ o. unwrap_or o false) (get-insert j k true m) ∙ ground arith
toggled false j k m = ap (λ o. unwrap_or o false) (get-remove j k m) ∙ ground arith

lock_after :
    (c : Converter) (e : Event) (k : SignalKey)
    → unwrap_or (get k ((slip_hc e.key e.lock e.phase c).0.lock)) 0
      ≡ (if e.key == k then e.lock else unwrap_or (get k c.lock) 0)
unfolding slip_hc
lock_after c e k = ap (λ o. unwrap_or o 0) (get-insert e.key k e.lock c.lock) ∙ ground arith

slip_after :
    (c : Converter) (e : Event) (k : SignalKey)
    → unwrap_or (get k ((slip_hc e.key e.lock e.phase c).0.slip)) false ≡ (
        if e.key == k
        then (tells (unwrap_or (get e.key c.lock) 0) e.lock || unwrap_or (get e.key c.slip) false)
          && not e.phase
        else unwrap_or (get k c.slip) false)
unfolding slip_hc
slip_after c e k =
    toggled
      ((tells (unwrap_or (get e.key c.lock) 0) e.lock || unwrap_or (get e.key c.slip) false)
        && not e.phase)
      e.key k c.slip

next_flag :
    (c : Converter) (before : List Event) (e : Event)
    → Follows c before
    → (slip_hc e.key e.lock e.phase c).1
      ≡ (tells (last_lock e.key before) e.lock || untold e.key before)
unfolding slip_hc
next_flag c before e inv = rw ((inv e.key).0, (inv e.key).1)

lock_here : (before : List Event) (e : Event) → last_lock e.key (e ∷ before) ≡ e.lock
lock_here before e = ground (arith, beq_refl e.key)

untold_here :
    (before : List Event) (e : Event)
    → untold e.key (e ∷ before)
      ≡ (not e.phase && (tells (last_lock e.key before) e.lock || untold e.key before))
untold_here before e = ground (arith, beq_refl e.key)

if_on {ℓ} : {A : Type ℓ} (b : Bool) (x y : A) → b ≡ true → (if b then x else y) ≡ x
if_on b x y h = rw h

next_Follows :
    (c : Converter) (before : List Event) (e : Event)
    → Follows c before
    → Follows ((slip_hc e.key e.lock e.phase c).0) (e ∷ before)
next_Follows c before e inv k = elim (Bool-cases (e.key == k)) [
  | inl same ↦
      let path = (key_beq_iff e.key k).0 same in
      (
        lock_after c e k
            ∙ if_on (e.key == k) _ _ same
            ∙ sym (lock_here before e)
            ∙ ap (λ z. last_lock z (e ∷ before)) path,
        slip_after c e k
            ∙ if_on (e.key == k) _ _ same
            ∙ rw ((inv e.key).0, (inv e.key).1) (ground arith)
            ∙ sym (untold_here before e)
            ∙ ap (λ z. untold z (e ∷ before)) path,
      )
  | inr other ↦ (lock_after c e k ∙ rw other ((inv k).0), slip_after c e k ∙ rw other ((inv k).1))
]

ll_flags-owed :
    (c : Converter) (before es : List Event) → Follows c before → ll_flags c es ≡ owed before es
unfolding ll_flags owed
ll_flags-owed c before [] inv = refl
ll_flags-owed c before (e ∷ es) inv =
    let c' = (slip_hc e.key e.lock e.phase c).0 in
    let p = next_flag c before e inv in
    let q = ll_flags-owed c' (e ∷ before) es (next_Follows c before e inv) in λ i. p i ∷ q i

-- From the start of a conversion, a cell is flagged exactly when its lock time tells a slip, or
-- one was told by a cell without a phase since the signal's last cell with one: no slip is lost
-- on a cell without a phase.
pub cell_slips_are_told : (opts : Options) (es : List Event) → ll_flags (new opts) es ≡ owed [] es
unfolding get
cell_slips_are_told opts es = ll_flags-owed (new opts) [] es (λ k. (refl, refl))
