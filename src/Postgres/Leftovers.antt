-- ===== src/Postgres/Leftovers.antt =====
-- What the cleanup at the start finds: PostgreSQL's LIKE, and the names that it lists.
use pg_test.Base.{
  ℕ, zero, suc, ◌≡◌, ◌≤◌, refl, Bool, true, false, ◌||◌, ◌&&◌, none, List, [], ◌∷◌, ◌++◌, arith, ok,
  codes, length, map, count, ltb, leb, ◌==◌, if◌then◌else◌, Option-cases, inl, inr, subst,
}
use pg_test.ControlPanel.Protocol.Releases.{Result-cases}
use pg_test.Inventory.{id_key}
use pg_test.Postgres.Cleanup.{
  chunks, chunks_within, cleanup_pattern, drop_batches, drop_ddl_templates_like, first_error,
  split_at,
}
use pg_test.Postgres.Ddl.{Server, drop_on_connection}
use pg_test.Postgres.{PostgresManager, cleanup}
use pg_test.ReadString.{ReadString}

unfoldable pub any_suffix : (ReadString → Bool) → ReadString → Bool
any_suffix f [] = f []
any_suffix f (b ∷ s) = f (b ∷ s) || any_suffix f s

unfoldable pub behind_continuation : ReadString → ReadString
behind_continuation [] = []
behind_continuation (b ∷ s) =
    let rest = behind_continuation s in if leb 128 b && ltb b 192 then rest else b ∷ s

-- One character of UTF-8, and the test on what is behind it.
unfoldable pub skip_char : (ReadString → Bool) → ReadString → Bool
skip_char f [] = false
skip_char f (b ∷ s) = if ltb b 128 then f s else f (behind_continuation s)

unfoldable pub literal : ℕ → (ReadString → Bool) → ReadString → Bool
literal p f [] = false
literal p f (b ∷ s) = (b == p) && f s

-- PostgreSQL's LIKE: `%` is any text, `_` any character, and a byte behind a backslash is itself.
unfoldable pub like : Bool → ReadString → ReadString → Bool
like escaped [] [] = true
like escaped [] (b ∷ s) = false
like true (p ∷ pattern) s = literal p (like false pattern) s
like false (p ∷ pattern) s =
    if p == b'%'
    then any_suffix (like false pattern) s
    else if p == b'_'
    then skip_char (like false pattern) s
    else if p == 92
    then like true pattern s
    else literal p (like false pattern) s

any_suffix-here : (f : ReadString → Bool) (s : ReadString) → f s ≡ true → any_suffix f s ≡ true
unfolding any_suffix
any_suffix-here f [] h = h
any_suffix-here f (b ∷ s) h = rw h refl

-- A text without a backslash is listed by itself as the pattern, whatever wildcards it has.
like-itself :
    (name pattern s : ReadString)
    → count 92 name ≡ 0
    → like false pattern s ≡ true
    → like false (name ++ pattern) (name ++ s) ≡ true
unfolding like count literal skip_char any_suffix
like-itself [] pattern s plain h = h
like-itself (b ∷ name) pattern s plain h =
    let rest = like-itself name pattern s (ground (arith, plain)) h in
    let later = any_suffix-here (like false (name ++ pattern)) (name ++ s) rest in
    ground (arith, rest, later, plain)

like-suffix : (id : ReadString) → like false (codes "_%") (b'_' ∷ id) ≡ true
unfolding like skip_char any_suffix
like-suffix id = ending id
  where
    ending : (id : ReadString) → any_suffix (like false []) id ≡ true
    ending [] = refl
    ending (b ∷ id) = ending id

-- The text is one of the names.
abbrev pub Listed : ReadString → List ReadString → Type 0
Listed name names =
    (before : List ReadString) × (later : List ReadString) × (names ≡ before ++ name ∷ later)

unfoldable pub concat {ℓ} : {A : Type ℓ} → List (List A) → List A
concat [] = []
concat (xs ∷ rest) = xs ++ concat rest

split_at-append : {A : Type 0} (n : ℕ) (xs : List A) → (split_at n xs).0 ++ (split_at n xs).1 ≡ xs
unfolding split_at
split_at-append zero xs = refl
split_at-append (suc n) [] = refl
split_at-append (suc n) (x ∷ xs) = rw (split_at-append n xs) refl

split_at-length : {A : Type 0} (n : ℕ) (xs : List A) → length (split_at n xs).1 ≤ length xs
unfolding split_at
split_at-length zero xs = omega arith
split_at-length (suc n) [] = omega arith
split_at-length (suc n) (x ∷ xs) = omega (arith, split_at-length n xs)

concat-chunks_within :
    {A : Type 0} (n width : ℕ) (xs : List A)
    → length xs ≤ n
    → concat (chunks_within n (suc width) xs) ≡ xs
unfolding chunks_within concat split_at
concat-chunks_within zero width [] h = refl
concat-chunks_within zero width (x ∷ xs) h = absurd (omega (arith, h))
concat-chunks_within (suc n) width [] h = refl
concat-chunks_within (suc n) width (x ∷ xs) h =
    let later = (split_at width xs).1 in
    rw (concat-chunks_within n width later (omega (arith, h, split_at-length width xs)))
      (rw (split_at-append width xs) refl)

concat-chunks : (names : List ReadString) → concat (chunks 32 names) ≡ names
unfolding chunks
concat-chunks names = concat-chunks_within (length names) 31 names (omega arith)

module _ (server : Server) where
  -- Each of the names was dropped, or did not exist.
  unfoldable pub EachDropped : List ReadString → Type 0
  EachDropped [] = Unit {0}
  EachDropped (name ∷ names) = (drop_on_connection server name ≡ ok tt) × EachDropped names

  EachDropped-at :
      (before : List ReadString) (name : ReadString) (later : List ReadString)
      → EachDropped (before ++ name ∷ later)
      → drop_on_connection server name ≡ ok tt
  unfolding EachDropped
  EachDropped-at [] name later all = all.0
  EachDropped-at (x ∷ before) name later all = EachDropped-at before name later all.1

  EachDropped-append :
      (xs ys : List ReadString) → EachDropped xs → EachDropped ys → EachDropped (xs ++ ys)
  unfolding EachDropped
  EachDropped-append [] ys first later = later
  EachDropped-append (x ∷ xs) ys first later = (first.0, EachDropped-append xs ys first.1 later)

  first_error-EachDropped :
      (batch : List ReadString)
      → first_error (map (drop_on_connection server) batch) ≡ none
      → EachDropped batch
  unfolding EachDropped first_error
  first_error-EachDropped [] h = tt
  first_error-EachDropped (name ∷ batch) h = elim (Result-cases (drop_on_connection server name)) [
    | inl (u, done) ↦ (done, first_error-EachDropped batch (ground (arith, h, done)))
    | inr (e, failed) ↦ absurd (ground (arith, h, failed))
  ]

  drop_batches-EachDropped :
      (batches : List (List ReadString))
      → (drop_batches server batches).0 ≡ ok tt
      → ((drop_batches server batches).1 ≡ concat batches) × EachDropped (concat batches)
  unfolding drop_batches concat EachDropped
  drop_batches-EachDropped [] h = (refl, tt)
  drop_batches-EachDropped (batch ∷ batches) h =
      elim (Option-cases (first_error (map (drop_on_connection server) batch))) [
        | inl fine ↦
            let (tried, all) = drop_batches-EachDropped batches (ground (arith, h, fine)) in
            (
              rw (drop_batches, fine, tried) refl,
              EachDropped-append batch (concat batches) (first_error-EachDropped batch fine) all,
            )
        | inr (e, failed) ↦ absurd (ground (arith, h, failed))
      ]

  -- A cleanup that succeeds has dropped every database that is named by the template, an underscore
  -- and any text, if the template has no backslash and the server lists what matches the pattern.
  pub drop_ddl_templates_like-drops :
      (manager : PostgresManager) (id : ReadString)
      → (drop_ddl_templates_like server manager).0 ≡ ok tt
      → count 92 manager.template_database_name.name ≡ 0
      → ((names : List ReadString)
          → server.list_databases (cleanup_pattern manager) ≡ ok names
          → like false (cleanup_pattern manager) (manager.template_database_name.name ++ b'_' ∷ id)
            ≡ true
          → Listed (manager.template_database_name.name ++ b'_' ∷ id) names)
      → Listed
          (manager.template_database_name.name ++ b'_' ∷ id)
          (drop_ddl_templates_like server manager).1
        × (drop_on_connection server (manager.template_database_name.name ++ b'_' ∷ id) ≡ ok tt)
  unfolding drop_ddl_templates_like
  drop_ddl_templates_like-drops manager id h plain listing =
      elim (Result-cases (server.acquire cleanup 0)) [
        | inr (e, away) ↦ absurd (ground (arith, h, away))
        | inl (u, there) ↦ elim (Result-cases (server.list_databases (cleanup_pattern manager))) [
          | inr (e, failed) ↦ absurd (ground (arith, h, there, failed))
          | inl (names, listed) ↦
              let template = manager.template_database_name.name in
              let (before, later, whole) =
                listing names listed
                  (like-itself template (codes "_%") (b'_' ∷ id) plain (like-suffix id)) in
              let run : drop_ddl_templates_like server manager
                  ≡ drop_batches server (chunks 32 names) =
                rw (drop_ddl_templates_like, there, listed) refl in
              let (tried, all) =
                drop_batches-EachDropped (chunks 32 names) (ground (arith, h, run)) in
              (
                (before, later, cc (run, tried, concat-chunks names, whole)),
                EachDropped-at before (template ++ b'_' ∷ id) later
                    (subst EachDropped (cc (concat-chunks names, whole)) all),
              )
        ]
      ]
