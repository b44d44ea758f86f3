-- ===== src/Equality/Maps.antt =====
-- `mapsEqual` of pkg/reconciler/pod_reconciler.go against its specification: two maps are equal that
-- have the same value, or none, at every key.
use rolebasedgroup.Prelude.{
  suc, ◌≤◌, String, true, false, none, some, List, [], ◌∷◌, length, ◌≡◌, ◌↔◌, refl, sym, ap, ◌∙◌,
  inl, inr, str_eq, str_eq-eq, str_eq_refl, contains, Distinct, ==_iff, Bool-cases, Option-cases,
  arith,
}
use rolebasedgroup.Prelude.Maps.{map_get, map_get-lacks, keys}
use rolebasedgroup.Prelude.Pigeonhole.{Within, length-le_of_Within}
use rolebasedgroup.Api.{Labels}
use rolebasedgroup.Equality.{entries_in, maps_equal}
use rolebasedgroup.Equality.Sound.{entries_in-get}

length-keys : (m : Labels) → length (keys m) ≡ length m
length-keys [] = refl
length-keys (e ∷ m) = ap (λ n. suc n) (length-keys m)

keys-get :
    (m : Labels) (k : String) → contains (keys m) k ≡ true → (v : String) × (map_get m k ≡ some v)
unfolding map_get contains
keys-get [] k h = absurd (cc)
keys-get ((j, w) ∷ m) k h = elim (Bool-cases (str_eq j k)) [
  | inl same ↦ (w, rw same refl)
  | inr differ ↦ let (v, e) = keys-get m k (rw differ at h) in (v, rw differ e)
]

get-keys : (m : Labels) (k v : String) → map_get m k ≡ some v → contains (keys m) k ≡ true
get-keys m k v h = elim (Bool-cases (contains (keys m) k)) [
  | inl has ↦ has
  | inr lacks ↦ absurd (ground (arith, map_get-lacks m k))
]

-- The maps agree at every key.
abbrev pub SameMap : Labels → Labels → Type 0
SameMap l m = (k : String) → map_get l k ≡ map_get m k

within_lem : (l m : Labels) → SameMap l m → Within (keys l) (keys m)
within_lem l m h k has = let (v, e) = keys-get l k has in get-keys m k v (sym (h k) ∙ e)

same-length :
    (l m : Labels) → Distinct (keys l) → Distinct (keys m) → SameMap l m → length l ≡ length m
same-length l m dl dm h = omega (
  arith,
  length-keys l,
  length-keys m,
  length-le_of_Within (keys l) (keys m) dl (within_lem l m h),
  length-le_of_Within (keys m) (keys l) dm (within_lem m l (λ k. sym (h k))),
)

entries_in-of_get :
    (l m : Labels)
    → Distinct (keys l)
    → ((k v : String) → map_get l k ≡ some v → map_get m k ≡ some v)
    → entries_in l m ≡ true
unfolding entries_in map_get
entries_in-of_get [] m d h = refl
entries_in-of_get ((j, w) ∷ l) m d h =
    let here : map_get m j ≡ some w = h j w (rw (str_eq_refl j) refl) in
    let rest : entries_in l m ≡ true = entries_in-of_get l m d.1 λ k v e.
      elim (Bool-cases (str_eq j k)) [
        | inl same ↦
            let lacks : map_get l k ≡ none =
              ap (map_get l) (sym (str_eq-eq j k same)) ∙ map_get-lacks l j d.0 in
            absurd (ground arith)
        | inr differ ↦ h k v (rw differ e)
      ] in
    ground (arith, str_eq_refl w)

maps_equal-parts :
    (l m : Labels) → maps_equal l m ≡ true → (length l ≡ length m) × (entries_in l m ≡ true)
unfolding maps_equal entries_in
maps_equal-parts [] [] h = (refl, refl)
maps_equal-parts [] (x ∷ m) h = absurd (cc)
maps_equal-parts (d ∷ l) [] h = absurd (cc)
maps_equal-parts (d ∷ l) (x ∷ m) h = ground arith

maps_equal-of_parts :
    (l m : Labels) → length l ≡ length m → entries_in l m ≡ true → maps_equal l m ≡ true
unfolding maps_equal
maps_equal-of_parts [] [] n h = refl
maps_equal-of_parts [] (x ∷ m) n h = absurd (omega arith)
maps_equal-of_parts (d ∷ l) [] n h = absurd (omega arith)
maps_equal-of_parts (d ∷ l) (x ∷ m) n h = rw ((==_iff (length (d ∷ l)) (length (x ∷ m))).1 n) h

tail-lem :
    (k s : String) (ks : List String)
    → contains (k ∷ ks) s ≡ true
    → str_eq k s ≡ false
    → contains ks s ≡ true
unfolding contains
tail-lem k s ks h q = rw q at h

-- A key that the first map has no value at has none in the second.
no_more :
    (l m : Labels) (k : String)
    → Distinct (keys l)
    → maps_equal l m ≡ true
    → map_get l k ≡ none
    → map_get m k ≡ none
no_more l m k d h e =
    let (n, within) = maps_equal-parts l m h in
    elim (Bool-cases (contains (keys l) k)) [
      | inl has ↦ let (v, g) = keys-get l k has in absurd (ground arith)
      | inr lacks ↦ elim (Option-cases (map_get m k)) [
        | inl o ↦ o
        | inr (v, g) ↦
            let more : length (k ∷ keys l) ≤ length (keys m) =
              length-le_of_Within (k ∷ keys l) (keys m) (lacks, d)
                λ s has. spread s has v g within in
            absurd (omega (arith, length-keys l, length-keys m))
      ]
    ]
  where
    spread :
        (s : String)
        → contains (k ∷ keys l) s ≡ true
        → (v : String) → map_get m k ≡ some v
        → entries_in l m ≡ true
        → contains (keys m) s ≡ true
    spread s has v g within = elim (Bool-cases (str_eq k s)) [
      | inl same ↦ ap (contains (keys m)) (sym (str_eq-eq k s same)) ∙ get-keys m k v g
      | inr differ ↦
          let (w, at_s) = keys-get l s (tail-lem k s (keys l) has differ) in
          get-keys m s w (entries_in-get l m s w within at_s)
    ]

-- Two maps without a key twice compare equal exactly if they have the same value, or none, at every
-- key.
pub maps_equal_iff :
    (l m : Labels) → Distinct (keys l) → Distinct (keys m) → (maps_equal l m ≡ true) ↔ SameMap l m
maps_equal_iff l m dl dm = (
  λ h k. elim (Option-cases (map_get l k)) [
    | inl o ↦ o ∙ sym (no_more l m k dl h o)
    | inr (v, g) ↦ g ∙ sym (entries_in-get l m k v (maps_equal-parts l m h).1 g)
  ],
  λ h.
      maps_equal-of_parts l m (same-length l m dl dm h)
        (entries_in-of_get l m dl (λ k v e. sym (h k) ∙ e)),
)
