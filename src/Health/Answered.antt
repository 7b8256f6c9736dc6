-- ===== src/Health/Answered.antt =====
-- What the servers answer to a health check, and what checkMySQL and the ProxySQL checker make of it.
use mysql_keeper.Prelude.{
  ℕ, suc, String, ◌≡◌, ◌≢◌, ◌↔◌, ◌⊎◌, inl, inr, refl, ap, sym, ◌∙◌, Bool-cases, List, [], ◌∷◌,
  Option, none, some, Bool, true, false, arith,
}
use mysql_keeper.Prelude.Int.{ℤ, pos, ◌+ℤ◌, eqb_ℤ, ◌≤ℤ◌, wrap, wrap32}
use mysql_keeper.Go.Error.{Result, ok, err, done, annotate, chain-ok, annotate-ok}
use mysql_keeper.Health.{MysqlAnswers, ProxyAnswers, check_mysql, proxysql_check, check_one}

-- MySQL took the connection and answered every query: the number that the text of
-- wsrep_cluster_size is scanned to, the status of the cluster, and the number of @@read_only.
abbrev pub Answers : MysqlAnswers → ℤ → String → ℤ → Type 0
Answers a size status read_only =
    (a.opened ≡ done)
    × (a.ping ≡ done)
    × ((t : String) × (a.cluster_size ≡ ok t) × (a.scan t ≡ ok size))
    × (a.cluster_status ≡ ok status)
    × (a.read_only ≡ ok read_only)

-- MySQL answers as a member of a primary component with a quorum.
abbrev pub IsMysqlReady : MysqlAnswers → Type 0
IsMysqlReady a = (size : ℤ) × (read_only : ℤ) × Answers a size "Primary" read_only × (pos 2 ≤ℤ size)

-- MySQL answers, and @@read_only is 0, or it is not.
abbrev pub AnswersWritable : MysqlAnswers → Type 0
AnswersWritable a = (size : ℤ) × (status : String) × Answers a size status (pos 0)

abbrev pub AnswersReadOnly : MysqlAnswers → Type 0
AnswersReadOnly a =
    (size : ℤ) × (status : String) × (read_only : ℤ) × Answers a size status read_only
    × (read_only ≢ pos 0)

-- An endpoint takes the connection, and answers the ping and the query.
abbrev pub IsAnswering : ProxyAnswers → Type 0
IsAnswering a = (a.opened ≡ done) × (a.ping ≡ done) × (a.select_one ≡ done)

-- Of the endpoints, as many answer.
abbrev pub AreAnswering : List ProxyAnswers → ℕ → Type 0
AreAnswering [] n = n ≡ 0
AreAnswering (a ∷ rest) n =
    (IsAnswering a × (k : ℕ) × (n ≡ suc k) × AreAnswering rest k)
    ⊎ (¬ (IsAnswering a) × AreAnswering rest n)

-- For a local cluster, as many endpoints answer as are required; the count is an int32.
abbrev pub IsProxyReady : Option (List ProxyAnswers × ℤ) → Type 0
IsProxyReady none = Unit
IsProxyReady (some (proxies, min_proxysql)) =
    (n : ℕ) × AreAnswering proxies n × (min_proxysql ≤ℤ wrap32 (pos n))

check_one-IsAnswering : (a : ProxyAnswers) → (check_one a ≡ true) ↔ IsAnswering a
unfolding check_one
check_one-IsAnswering a = ground arith

wrap32-suc : (n : ℕ) → wrap32 (wrap32 (pos n) +ℤ pos 1) ≡ wrap32 (pos (suc n))
unfolding wrap ◌+ℤ◌
wrap32-suc n = ground arith

proxysql_check-counts :
    (proxies : List ProxyAnswers) (n : ℕ)
    → AreAnswering proxies n
    → proxysql_check proxies ≡ wrap32 (pos n)
unfolding proxysql_check wrap
proxysql_check-counts [] n h = ground arith
proxysql_check-counts (a ∷ rest) n (inl (answers, k, same, others)) =
    rw ((check_one-IsAnswering a).1 answers) (
      ap (λ z. wrap32 (z +ℤ pos 1)) (proxysql_check-counts rest k others)
      ∙ wrap32-suc k
      ∙ ap (λ m. wrap32 (pos m)) (sym same))
proxysql_check-counts (a ∷ rest) n (inr (silent, others)) = elim (Bool-cases (check_one a)) [
  | inl found ↦ absurd (silent ((check_one-IsAnswering a).0 found))
  | inr other ↦ simp (other) (proxysql_check-counts rest n others)
]

some_answer : (proxies : List ProxyAnswers) → (n : ℕ) × AreAnswering proxies n
some_answer [] = (0, refl)
some_answer (a ∷ rest) =
    let (k, others) = some_answer rest in
    elim (Bool-cases (check_one a)) [
      | inl found ↦ (suc k, inl ((check_one-IsAnswering a).0 found, k, refl, others))
      | inr other ↦ (k, inr (λ answers. cc ((check_one-IsAnswering a).1 answers, other), others))
    ]

-- The same of a result of check_mysql.
abbrev pub IsReadyResult : Result (ℤ × String × Bool) → Type 0
IsReadyResult (ok (size, status, _)) = (status ≡ "Primary") × (pos 2 ≤ℤ size)
IsReadyResult (err e) = ⊥

abbrev pub IsWritableResult : Bool → Result (ℤ × String × Bool) → Type 0
IsWritableResult w (ok (_, _, is_writable)) = is_writable ≡ w
IsWritableResult w (err e) = ⊥

same_answer :
    {m n : ℤ} {s t : String} {v w : Bool}
    → ◌≡◌ {A = Result (ℤ × String × Bool)} (ok (m, s, v)) (ok (n, t, w))
    → (m ≡ n) × (s ≡ t) × (v ≡ w)
same_answer h = (cc, cc, cc)

check_mysql-answered :
    (a : MysqlAnswers) (size : ℤ) (status : String) (w : Bool)
    → check_mysql a ≡ ok (size, status, w)
    → (read_only : ℤ) × Answers a size status read_only × (w ≡ eqb_ℤ read_only (pos 0))
unfolding check_mysql
check_mysql-answered a size status w h =
    let (_, opened, h1) = chain-ok (annotate _ a.opened) _ h in
    let (_, pinged, h2) = chain-ok (annotate _ a.ping) _ h1 in
    let (t, sized, h3) = chain-ok (annotate _ a.cluster_size) _ h2 in
    let (n, scanned, h4) = chain-ok (annotate _ (a.scan t)) _ h3 in
    let (st, stated, h5) = chain-ok (annotate _ a.cluster_status) _ h4 in
    let (ro, read, h6) = chain-ok (annotate _ a.read_only) _ h5 in
    let (same_size, same_status, flag) = same_answer h6 in
    (
      ro,
      (
        annotate-ok _ a.opened opened,
        annotate-ok _ a.ping pinged,
        (t, annotate-ok _ a.cluster_size sized, annotate-ok _ (a.scan t) scanned ∙ ap ok same_size),
        annotate-ok _ a.cluster_status stated ∙ ap ok same_status,
        annotate-ok _ a.read_only read,
      ),
      sym flag,
    )

Answers-check_mysql :
    (a : MysqlAnswers) (size : ℤ) (status : String) (read_only : ℤ)
    → Answers a size status read_only
    → check_mysql a ≡ ok (size, status, eqb_ℤ read_only (pos 0))
unfolding check_mysql
Answers-check_mysql a size status read_only (opened, pinged, (t, sized, scanned), stated, read) =
    rw (opened, pinged, sized, scanned, stated, read) refl

module _ (a : MysqlAnswers) where
  ready_answered :
      (r : Result (ℤ × String × Bool)) → check_mysql a ≡ r → IsReadyResult r → IsMysqlReady a
  ready_answered (ok (size, status, w)) h (primary, quorum) =
      let (ro, answers, _) = check_mysql-answered a size status w h in
      (size, ro, rw primary at answers, quorum)
  ready_answered (err e) h none_there = elim none_there [ ]

  pub ready_iff : IsReadyResult (check_mysql a) ↔ IsMysqlReady a
  ready_iff = (
    ready_answered (check_mysql a) refl,
    λ (h : IsMysqlReady a).
        let (size, ro, answers, quorum) = h in
        rw (Answers-check_mysql a size "Primary" ro answers) (refl, quorum),
  )

  writable_answered :
      (r : Result (ℤ × String × Bool))
      → check_mysql a ≡ r
      → (IsWritableResult true r → AnswersWritable a)
        × (IsWritableResult false r → AnswersReadOnly a)
  writable_answered (ok (size, status, w)) h =
      let (ro, answers, flag) = check_mysql-answered a size status w h in
      (
        λ on.
            let zero_read : ro ≡ pos 0 = ground (arith, flag, on) in
            (size, status, rw zero_read at answers),
        λ off. (size, status, ro, answers, ground (arith, flag, off)),
      )
  writable_answered (err e) h = (λ (n : ⊥). elim n [ ], λ (n : ⊥). elim n [ ])

  pub writable_iff : IsWritableResult true (check_mysql a) ↔ AnswersWritable a
  writable_iff = (
    (writable_answered (check_mysql a) refl).0,
    λ (h : AnswersWritable a).
        let (size, status, answers) = h in
        rw (Answers-check_mysql a size status (pos 0) answers) refl,
  )

  pub read_only_iff : IsWritableResult false (check_mysql a) ↔ AnswersReadOnly a
  read_only_iff = (
    (writable_answered (check_mysql a) refl).1,
    λ (h : AnswersReadOnly a).
        let (size, status, ro, answers, other) = h in
        rw (Answers-check_mysql a size status ro answers) (ground arith),
  )

pub proxies_iff :
    (proxies : List ProxyAnswers) (min_proxysql : ℤ)
    → (min_proxysql ≤ℤ proxysql_check proxies) ↔ IsProxyReady (some (proxies, min_proxysql))
proxies_iff proxies min_proxysql = (
  λ h.
      let (n, answering) = some_answer proxies in
      (n, answering, rw (proxysql_check-counts proxies n answering) at h),
  λ (h : IsProxyReady (some (proxies, min_proxysql))).
      let (n, answering, enough) = h in rw (proxysql_check-counts proxies n answering) enough,
)
