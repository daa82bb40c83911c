-- ===== src/Api/Pages.antt =====
-- What the replies of the reading handlers hold, when their queries are answered.
use transcodex.Base.{
  ℕ, zero, suc, ◌≤◌, ◌≡◌, refl, sym, ap, ◌∙◌, subst, ◌++◌, ◌||◌, inl, inr, Bool, true, false, not,
  ◌&&◌, List, [], ◌∷◌, arith, leb, if◌then◌else◌, filter, length, take, All, Bool-cases,
  Option-cases,
}
use transcodex.Base.Text.{atoi, same_text}
use transcodex.Db.Schema.{Text, Job, Db}
use transcodex.Db.Sql.{ok}
use transcodex.Db.Postgres.{Postgres, descending, IsOrdered}
use transcodex.Redis.{Redis}
use transcodex.Run.{calm, autocommit, transaction, attempt, pure, ◌>>=◌}
use transcodex.Api.Reads.{
  Response, success, bad_request, parse_limit, has_status, is_valid_job_status, get_internal_jobs,
  select_page,
}

-- A limit that is read lies between one and the maximum, for a fallback that does, whatever the
-- text of the parameter.
pub parse_limit-bounded :
    (raw : Text) (fallback max : ℕ)
    → 1 ≤ fallback
    → fallback ≤ max
    → (1 ≤ parse_limit raw fallback max) × (parse_limit raw fallback max ≤ max)
unfolding parse_limit
parse_limit-bounded [] fallback max low high = (low, high)
parse_limit-bounded (c ∷ raw) fallback max low high = elim (Option-cases (atoi (c ∷ raw))) [
  | inl e ↦ rw (e, parse_limit) (low, high)
  | inr (value, e) ↦ rw (e, parse_limit) (ground arith)
]

module _ {A : Type 0} where
  filter-All :
      (p : A → Bool) (xs : List A)
      → length (filter (λ x. not (p x)) xs) ≡ 0
      → All (λ x. p x ≡ true) xs
  filter-All p [] h = tt
  filter-All p (x ∷ xs) h = elim (Bool-cases (p x)) [
    | inl yes' ↦ (yes', filter-All p xs (ground arith))
    | inr no' ↦ absurd (ground arith)
  ]

  filter-filter : (p : A → Bool) (xs : List A) → length (filter (λ x. not (p x)) (filter p xs)) ≡ 0
  filter-filter p [] = refl
  filter-filter p (x ∷ xs) = ground (arith, filter-filter p xs)

  All-take : (P : A → Type 0) (n : ℕ) (xs : List A) → All P xs → All P (take n xs)
  All-take P zero xs h = tt
  All-take P (suc n) [] h = tt
  All-take P (suc n) (x ∷ xs) (h, hs) = (h, All-take P n xs hs)

  length-take :
      (n : ℕ) (xs : List A) → length (take n xs) ≡ (if leb n (length xs) then n else length xs)
  length-take zero xs = ground arith
  length-take (suc n) [] = ground arith
  length-take (suc n) (x ∷ xs) = ground (arith, length-take n xs)

  take_rest : (n : ℕ) (xs : List A) → (rest : List A) × (take n xs ++ rest ≡ xs)
  take_rest zero xs = (xs, refl)
  take_rest (suc n) [] = ([], refl)
  take_rest (suc n) (x ∷ xs) = let (rest, e) = take_rest n xs in (rest, ap (λ l. x ∷ l) e)

  filter-always : (xs : List A) → length (filter (λ _. true) xs) ≡ length xs
  filter-always [] = refl
  filter-always (x ∷ xs) = ground (arith, filter-always xs)

module _ (pg : Postgres) where
  pub length-order_by :
      {A : Type 0} (d : _) (key : A → ℕ) (xs : List A) → length (pg.order_by d key xs) ≡ length xs
  length-order_by d key xs =
      sym (filter-always (pg.order_by d key xs))
      ∙ pg.order_by_count d key (λ _. true) xs
      ∙ filter-always xs

  module _ (r : Redis) where
    -- A page begins the rows that it continues with, in all those of the table which have the status asked
    -- for, the latest change first; it is as long as there are such rows, up to the limit.
    abbrev pub IsPage : Text → ℕ → Db → Response (List (ℕ × Job)) → Type 0
    IsPage status limit db (success rows) =
        ((same_text status [] || is_valid_job_status status) ≡ true)
        × All (λ e. has_status status e ≡ true) rows
        × ((rest : List (ℕ × Job)) × IsOrdered descending (λ e. e.1.updated_at) (rows ++ rest)
            × ((p : ℕ × Job → Bool)
                → length (filter p (rows ++ rest))
                  ≡ length (filter p (filter (has_status status) db.jobs))))
        × (let n = length (filter (has_status status) db.jobs) in
            length rows ≡ (if leb limit n then limit else n))
    IsPage status limit db bad_request =
        (same_text status [] ≡ false) × (is_valid_job_status status ≡ false)
    IsPage status limit db _ = ⊥

    select_page-IsPage :
        (status : Text) (limit : ℕ) (db : Db)
        → (same_text status [] || is_valid_job_status status) ≡ true
        → IsPage status limit db (success (select_page pg status limit db))
    select_page-IsPage status limit db known =
        let found = filter (has_status status) db.jobs in
        let sorted = pg.order_by descending (λ e. e.1.updated_at) found in
        let all = filter-All (has_status status) sorted (
          pg.order_by_count descending (λ e. e.1.updated_at) (λ e. not (has_status status e)) found
          ∙ filter-filter (has_status status) db.jobs) in
        let (rest, e) = take_rest limit sorted in
        (
          known,
          All-take (λ e. has_status status e ≡ true) limit sorted all,
          (
            rest,
            subst (IsOrdered descending (λ e. e.1.updated_at)) (sym e)
                (pg.order_by-IsOrdered descending (λ e. e.1.updated_at) found),
            λ p.
                ap (λ l. length (filter p l)) e
                ∙ pg.order_by_count descending (λ e. e.1.updated_at) p found,
          ),
          length-take limit sorted
              ∙ ap (λ n. if leb limit n then limit else n)
                  (length-order_by descending (λ e. e.1.updated_at) found),
        )

    -- With its query answered, `getInternalJobs` refuses the request where a status is given that is
    -- not a status of jobs, and only there. Else its reply begins the jobs of the status asked for, or
    -- of any status where none is, in the order of their last change, the latest first: each row of
    -- the table as often as it is there, as many as there are up to the limit, which is at most 200.
    pub get_internal_jobs-IsPage :
        (raw status : Text) (db : Db) (now : ℕ) (c : r.State)
        → (out : Response (List (ℕ × Job))) × (get_internal_jobs r pg raw status (calm db now c)
            ≡ (ok out, calm db now c))
          × IsPage status (parse_limit raw 50 200) db out
          × (parse_limit raw 50 200 ≤ 200)
    unfolding get_internal_jobs attempt autocommit transaction pure ◌>>=◌
    get_internal_jobs-IsPage raw status db now c =
        let bound = (parse_limit-bounded raw 50 200 (omega arith) (omega arith)).1 in
        elim (Bool-cases (not (same_text status []) && not (is_valid_job_status status))) [
          | inl refused ↦ (bad_request, rw refused refl, (ground arith, ground arith), bound)
          | inr served ↦ (
            success (select_page pg status (parse_limit raw 50 200) db),
            rw served refl,
            select_page-IsPage status (parse_limit raw 50 200) db (ground arith),
            bound,
          )
        ]
