-- ===== src/Controller/ReplicationErrors/Gauges/Keys.antt =====
-- The keys and labels of the gauges: equality, membership, and a key with its first label.
use mysql_keeper.Prelude.{
  ◌≡◌, inl, inr, refl, List, [], ◌∷◌, ◌++◌, Bool, true, ◌||◌, Option, some, keep, arith, Bool-cases,
}
use mysql_keeper.Controller.ReplicationErrors.LabelKey.{
  Bytes, Labels, HasNoNul, parse_label_key, split_n, four, cut-append,
}
use mysql_keeper.Controller.ReplicationErrors.Gauges.{
  bytes_eq, series_eq, key_mem, remember, starts_with,
}

pub bytes_eq_sound : (a b : Bytes) → bytes_eq a b ≡ true → a ≡ b
unfolding bytes_eq
bytes_eq_sound [] [] h = refl
bytes_eq_sound (a ∷ cs) (b ∷ bs) h = let ih = bytes_eq_sound cs bs in ground arith
bytes_eq_sound [] (b ∷ bs) h = cc
bytes_eq_sound (a ∷ cs) [] h = cc

pub bytes_eq_refl : (a : Bytes) → bytes_eq a a ≡ true
unfolding bytes_eq
bytes_eq_refl [] = refl
bytes_eq_refl (a ∷ cs) = let ih = bytes_eq_refl cs in ground arith

-- Membership of a stored key.
pub key_mem-remember :
    (k l : Bytes) (ks : List Bytes) → key_mem k (remember l ks) ≡ (bytes_eq k l || key_mem k ks)
unfolding key_mem
key_mem-remember k l ks = elim (Bool-cases (key_mem l ks)) [
  | inl there ↦ elim (Bool-cases (bytes_eq k l)) [
    | inl same ↦ ground (arith, bytes_eq_sound k l same)
    | inr other ↦ simp (there, other) refl
  ]
  | inr missing ↦ simp (missing) refl
]

pub starts_with-append : (a b : Bytes) → starts_with (a ++ 0 ∷ []) (a ++ 0 ∷ b) ≡ true
unfolding starts_with
starts_with-append [] b = refl
starts_with-append (c ∷ cs) b = let ih = starts_with-append cs b in ground arith

pub starts_with-rest :
    (a k : Bytes) → starts_with (a ++ 0 ∷ []) k ≡ true → (b : Bytes) × (k ≡ a ++ 0 ∷ b)
unfolding starts_with
starts_with-rest [] [] h = cc
starts_with-rest [] (d ∷ ds) h = (ds, ground arith)
starts_with-rest (c ∷ cs) [] h = cc
starts_with-rest (c ∷ cs) (d ∷ ds) h =
    let (b, same) = starts_with-rest cs ds (ground arith) in (b, ground arith)

four-first :
    (a : Bytes) (ps : List Bytes) (u r c e : Bytes) → four (a ∷ ps) ≡ some (u, r, c, e) → a ≡ u
unfolding four
four-first a (b ∷ c ∷ d ∷ []) u r c' e h = cc
four-first a _ u r c e h = cc

pub parse_label_key-first :
    (a b u r c e : Bytes) → HasNoNul a → parse_label_key (a ++ 0 ∷ b) ≡ some (u, r, c, e) → a ≡ u
unfolding parse_label_key
parse_label_key-first a b u r c e n h =
    four-first a (split_n 2 b) u r c e (rw (cut-append a b n, split_n) at h)

pub series_eq_sound :
    (r c e r' c' e' : Bytes)
    → series_eq (r, c, e) (r', c', e') ≡ true
    → (r ≡ r') × (c ≡ c') × (e ≡ e')
series_eq_sound r c e r' c' e' h = (
  bytes_eq_sound r r' (ground arith),
  bytes_eq_sound c c' (ground arith),
  bytes_eq_sound e e' (ground arith),
)

pub same_labels :
    {u r c e u' r' c' e' : Bytes}
    → ◌≡◌ {A = Option Labels} (some (u, r, c, e)) (some (u', r', c', e'))
    → (u ≡ u') × (r ≡ r') × (c ≡ c') × (e ≡ e')
same_labels h = (cc, cc, cc, cc)

pub key_mem-keep :
    (p : Bytes → Bool) (k : Bytes) (ks : List Bytes)
    → p k ≡ true
    → key_mem k ks ≡ true
    → key_mem k (keep p ks) ≡ true
unfolding key_mem
key_mem-keep p k [] h m = m
key_mem-keep p k (l ∷ ls) h m = elim (Bool-cases (bytes_eq k l)) [
  | inl same ↦ ground (arith, bytes_eq_sound k l same, bytes_eq_refl k)
  | inr other ↦ let rest = key_mem-keep p k ls h (ground arith) in ground arith
]
