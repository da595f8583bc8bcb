-- ===== src/Rinex/Sorted.antt =====
-- The order of the observation codes in obsj/src/rinexobs.rs: `sort_observation_codes`.
use mathlib.Core.List.Permᴰ
use mathlib.Core.List.{Permᴰ}
use convobs_rs.Base.{
  ℕ, suc, ◌<◌, ◌≤◌, ◌⊎◌, nat_beq, if◌then◌else◌, ◌≡◌, refl, true, false, List, [], ◌∷◌, ◌++◌, arith,
  Bool-cases, inl, inr,
}
use convobs_rs.Ids.{ObsCode}
use convobs_rs.Base.Map.{get}
use convobs_rs.Base.Texts.{ascii}
use convobs_rs.Metadata.{Text}
use convobs_rs.Rinex.Codes.{
  observation_type_index, less_observation_code, sink_back, sort_from, backwards,
  sort_observation_codes,
}

-- The place of a byte in a text, behind its end when it is not there.
abbrev pub place : Text → ℕ → ℕ
place [] b = 0
place (k ∷ ks) b = if nat_beq k b then 0 else suc (place ks b)

-- The order of two codes in a header: by the band, then by the attribute, then C, L, D, S.
abbrev pub InOrder : ObsCode → ObsCode → Type 0
InOrder c d =
    (c.band < d.band)
    ⊎ ((c.band ≡ d.band)
        × ((c.attribute < d.attribute)
            ⊎ ((c.attribute ≡ d.attribute)
                × (place (ascii "CLDS") c.obs_type ≤ place (ascii "CLDS") d.obs_type))))

abbrev pub Ascending : List ObsCode → Type 0
Ascending [] = Unit
Ascending (c ∷ []) = Unit
Ascending (c ∷ d ∷ cs) = InOrder c d × Ascending (d ∷ cs)

-- No code is less than the one before it.
abbrev NoneLess : List ObsCode → Type 0
NoneLess [] = Unit
NoneLess (c ∷ []) = Unit
NoneLess (c ∷ d ∷ cs) = (less_observation_code d c ≡ false) × NoneLess (d ∷ cs)

observation_type_index_lem : (b : ℕ) → observation_type_index b ≡ place (ascii "CLDS") b
unfolding observation_type_index get
observation_type_index_lem b = ground arith

in_order : (c d : ObsCode) → less_observation_code d c ≡ false → InOrder c d
unfolding less_observation_code
in_order c d h =
    ground (arith, observation_type_index_lem c.obs_type, observation_type_index_lem d.obs_type)

NoneLess-Ascending : (cs : List ObsCode) → NoneLess cs → Ascending cs
NoneLess-Ascending [] h = tt
NoneLess-Ascending (c ∷ []) h = tt
NoneLess-Ascending (c ∷ d ∷ cs) h = (in_order c d h.0, NoneLess-Ascending (d ∷ cs) h.1)

-- The same of a list that stands backwards.
abbrev Descending : List ObsCode → Type 0
Descending [] = Unit
Descending (c ∷ []) = Unit
Descending (c ∷ d ∷ cs) = (less_observation_code c d ≡ false) × Descending (d ∷ cs)

less_asym : (c d : ObsCode) → less_observation_code c d ≡ true → less_observation_code d c ≡ false
unfolding less_observation_code
less_asym c d h = ground arith

sink_back-Descending :
    (c : ObsCode) (front : List ObsCode) → Descending front → Descending (sink_back c front)
unfolding sink_back
sink_back-Descending c [] h = tt
sink_back-Descending c (d ∷ []) h = elim (Bool-cases (less_observation_code c d)) [
  | inl less ↦ rw less (less_asym c d less, tt)
  | inr more ↦ rw more (more, tt)
]
sink_back-Descending c (d ∷ e ∷ front) h = elim (Bool-cases (less_observation_code c d)) [
  | inl less ↦
      let further = sink_back-Descending c (e ∷ front) h.1 in
      elim (Bool-cases (less_observation_code c e)) [
        | inl deep ↦ rw (less, deep) (h.0, rw deep at further)
        | inr stop ↦ rw (less, stop) (less_asym c d less, (stop, h.1))
      ]
  | inr more ↦ rw more (more, h)
]

sink_back_perm : (c : ObsCode) (front : List ObsCode) → Permᴰ (sink_back c front) (c ∷ front)
unfolding sink_back
sink_back_perm c [] = Permᴰ.refl (c ∷ [])
sink_back_perm c (d ∷ front) = elim (Bool-cases (less_observation_code c d)) [
  | inl less ↦
      rw less (Permᴰ.trans (Permᴰ.cons refl (sink_back_perm c front)) (Permᴰ.swap refl refl))
  | inr more ↦ rw more (Permᴰ.refl (c ∷ d ∷ front))
]

sort_from-Descending :
    (codes front : List ObsCode) → Descending front → Descending (sort_from front codes)
unfolding sort_from
sort_from-Descending [] front h = h
sort_from-Descending (c ∷ codes) front h =
    sort_from-Descending codes (sink_back c front) (sink_back-Descending c front h)

sort_from_perm : (codes front : List ObsCode) → Permᴰ (sort_from front codes) (front ++ codes)
unfolding sort_from
sort_from_perm [] front = Permᴰ.symm (Permᴰ.append-nil front)
sort_from_perm (c ∷ codes) front = Permᴰ.trans (sort_from_perm codes (sink_back c front)) (
    Permᴰ.trans (Permᴰ.append_right codes (sink_back_perm c front))
      (Permᴰ.symm (Permᴰ.middle c front codes)))

backwards_perm : (codes acc : List ObsCode) → Permᴰ (backwards acc codes) (acc ++ codes)
backwards_perm [] acc = Permᴰ.symm (Permᴰ.append-nil acc)
backwards_perm (c ∷ codes) acc =
    Permᴰ.trans (backwards_perm codes (c ∷ acc)) (Permᴰ.symm (Permᴰ.middle c acc codes))

-- The list that is turned around and the one that it is put before fit together.
abbrev Meets : List ObsCode → List ObsCode → Type 0
Meets [] acc = Unit
Meets (c ∷ cs) [] = Unit
Meets (c ∷ cs) (a ∷ acc) = less_observation_code a c ≡ false

Meets-next : (c : ObsCode) (cs acc : List ObsCode) → Descending (c ∷ cs) → Meets cs (c ∷ acc)
Meets-next c [] acc h = tt
Meets-next c (d ∷ cs) acc h = h.0

NoneLess-next :
    (c : ObsCode) (cs acc : List ObsCode) → Meets (c ∷ cs) acc → NoneLess acc → NoneLess (c ∷ acc)
NoneLess-next c cs [] m h = tt
NoneLess-next c cs (a ∷ acc) m h = (m, h)

Descending-next : (c : ObsCode) (cs : List ObsCode) → Descending (c ∷ cs) → Descending cs
Descending-next c [] h = tt
Descending-next c (d ∷ cs) h = h.1

backwards-NoneLess :
    (codes acc : List ObsCode)
    → Descending codes
    → NoneLess acc
    → Meets codes acc
    → NoneLess (backwards acc codes)
backwards-NoneLess [] acc h a m = a
backwards-NoneLess (c ∷ codes) acc h a m =
    backwards-NoneLess codes (c ∷ acc) (Descending-next c codes h) (NoneLess-next c codes acc m a)
      (Meets-next c codes acc h)

Meets-nil : (codes : List ObsCode) → Meets codes []
Meets-nil [] = tt
Meets-nil (c ∷ codes) = tt

-- The sort ends with the codes that it was given, each as often as before, in ascending order: by the
-- band, then by the attribute, and for one signal in the order C, L, D, S, with other kinds last.
pub sort_observation_codes-Ascending :
    (codes : List ObsCode)
    → Ascending (sort_observation_codes codes) × Permᴰ (sort_observation_codes codes) codes
unfolding sort_observation_codes
sort_observation_codes-Ascending codes =
    let front = sort_from [] codes in
    (
      NoneLess-Ascending (backwards [] front)
          (backwards-NoneLess front [] (sort_from-Descending codes [] tt) tt (Meets-nil front)),
      Permᴰ.trans (backwards_perm front []) (sort_from_perm codes []),
    )
