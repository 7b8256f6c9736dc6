-- ===== src/Controller/ReplicationErrors/LabelKey.antt =====
-- replicationErrorLabelKey and parseReplicationErrorLabelKey of replication_errors.go: the four labels
-- of a metric in one key, a NUL between them. A text is its bytes.
use mysql_keeper.Prelude.{
  ℕ, zero, suc, ◌≡◌, ◌≢◌, refl, ap, List, [], ◌∷◌, ◌++◌, Option, none, some, if◌then◌else◌, ◌==◌,
  arith, All, Bool-cases, Option-cases, inl, inr, ◌∙◌, sym, ◌↔◌,
}

abbrev pub Bytes : Type 0
Bytes = List ℕ

abbrev pub Labels : Type 0
Labels = Bytes × Bytes × Bytes × Bytes

unfoldable pub label_key : Labels → Bytes
label_key (uid, role, channel, errno) = uid ++ 0 ∷ (role ++ 0 ∷ (channel ++ 0 ∷ errno))

-- What stands before and after the first NUL.
abbrev prepend : ℕ → Option (Bytes × Bytes) → Option (Bytes × Bytes)
prepend c none = none
prepend c (some (a, b)) = some (c ∷ a, b)

unfoldable pub cut : Bytes → Option (Bytes × Bytes)
cut [] = none
cut (c ∷ cs) = let rest = cut cs in if c == 0 then some ([], cs) else prepend c rest

-- `strings.SplitN(s, "\x00", n + 1)`
unfoldable pub split_n : ℕ → Bytes → List Bytes
unfolding cut
split_n zero s = s ∷ []
split_n (suc n) s = elim (cut s) [ none ↦ s ∷ [] | some (a, b) ↦ a ∷ split_n n b ]

unfoldable pub four : List Bytes → Option Labels
four (a ∷ b ∷ c ∷ d ∷ []) = some (a, b, c, d)
four _ = none

unfoldable pub parse_label_key : Bytes → Option Labels
unfolding split_n four
parse_label_key key = four (split_n 3 key)

abbrev pub HasNoNul : Bytes → Type 0
HasNoNul = All (λ c. c ≢ 0)

pub cut-append : (a b : Bytes) → HasNoNul a → cut (a ++ 0 ∷ b) ≡ some (a, b)
unfolding cut
cut-append [] b h = ground arith
cut-append (c ∷ cs) b (h, hs) = let ih = cut-append cs b hs in ground arith

-- One byte more before the NUL.
before_nul :
    (c : ℕ) (rest : Option (Bytes × Bytes)) (a b : Bytes)
    → prepend c rest ≡ some (a, b)
    → (a' : Bytes) × (rest ≡ some (a', b)) × (a ≡ c ∷ a')
before_nul c none a b h = cc
before_nul c (some (a', b')) a b h = (a', ground arith, ground arith)

cut_joins : (s a b : Bytes) → cut s ≡ some (a, b) → a ++ 0 ∷ b ≡ s
unfolding cut
cut_joins [] a b h = cc
cut_joins (c ∷ cs) a b h = elim (Bool-cases (c == 0)) [
  | inl nul ↦ ground arith
  | inr more ↦
      let (a', found, same) = before_nul c (cut cs) a b (simp (more) at h) in
      rw same (ap (λ t. c ∷ t) (cut_joins cs a' b found))
]

pub parse-label_key :
    (uid role channel errno : Bytes)
    → HasNoNul uid
    → HasNoNul role
    → HasNoNul channel
    → parse_label_key (label_key (uid, role, channel, errno)) ≡ some (uid, role, channel, errno)
unfolding parse_label_key label_key
parse-label_key uid role channel errno u r c =
    rw (cut-append uid (role ++ 0 ∷ (channel ++ 0 ∷ errno)) u, split_n)
      (rw (cut-append role (channel ++ 0 ∷ errno) r, split_n)
        (rw (cut-append channel errno c, split_n) refl))

glue : List Bytes → Bytes
glue [] = []
glue (p ∷ []) = p
glue (p ∷ q ∷ ps) = p ++ 0 ∷ glue (q ∷ ps)

glue-split_n : (n : ℕ) (a s : Bytes) → glue (a ∷ split_n n s) ≡ a ++ 0 ∷ glue (split_n n s)
unfolding glue split_n
glue-split_n zero a s = refl
glue-split_n (suc n) a s = elim (Option-cases (cut s)) [
  | inl whole ↦ rw (whole, split_n) refl
  | inr ((p, r), e) ↦ rw (e, split_n) refl
]

split_n-glue : (n : ℕ) (s : Bytes) → glue (split_n n s) ≡ s
unfolding glue split_n
split_n-glue zero s = refl
split_n-glue (suc n) s = elim (Option-cases (cut s)) [
  | inl whole ↦ rw (whole, split_n) refl
  | inr ((p, r), e) ↦
      rw (e, split_n) (rw (glue-split_n n p r) (rw (split_n-glue n r) (cut_joins s p r e)))
]

four_joins :
    (ps : List Bytes) (labels : Labels) → four ps ≡ some labels → label_key labels ≡ glue ps
unfolding four label_key glue
four_joins (a ∷ b ∷ c ∷ d ∷ []) (u, r, ch, e) h = cc
four_joins _ labels h = cc

pub label_key-parse :
    (key : Bytes) (labels : Labels) → parse_label_key key ≡ some labels → label_key labels ≡ key
unfolding parse_label_key
label_key-parse key labels h = four_joins (split_n 3 key) labels h ∙ split_n-glue 3 key

-- A key is read as four labels, of which none but the last has a NUL in it, exactly if it is the
-- key of these labels.
pub parse_label_key_iff :
    (key uid role channel errno : Bytes)
    → HasNoNul uid
    → HasNoNul role
    → HasNoNul channel
    → (parse_label_key key ≡ some (uid, role, channel, errno))
      ↔ (key ≡ label_key (uid, role, channel, errno))
parse_label_key_iff key uid role channel errno u r c = (
  λ h. sym (label_key-parse key (uid, role, channel, errno) h),
  λ h. ap parse_label_key h ∙ parse-label_key uid role channel errno u r c,
)
