-- ===== src/Presence/Counting.antt =====
-- Counts of the sessions on a server.
use mathlib.Core.Option.{some-injective}
use aeon_backend.Store.{OnlineSession}
use aeon_backend.Base.{
  Option, Option-cases, false, true, ◌↔◌, ◌≤◌, ==-false_of_ne, All, Bool-cases, String, [], ap,
  arith, if◌then◌else◌, inl, inr, length, ltb, nat_key, none, refl, some, subst, sym, ℕ, ◌+◌, ◌==◌,
  ◌∙◌, ◌∷◌, ◌≡◌, ◌≢◌, text_key,
}
use aeon_backend.Base.Dict.{Dict, erase, insert, lookup}
use aeon_backend.Base.Rows.{Absent, Distinct, lookup-Absent}
use aeon_backend.Presence.{count_on, fresh_sessions, stale_servers}

abbrev pub on : String → OnlineSession → ℕ
on id row = if row.server_id == id then 1 else 0

count_on-cons :
    (id : String) (k : ℕ) (row : OnlineSession) (m : Dict ℕ OnlineSession)
    → count_on id ((k, row) ∷ m) ≡ on id row + count_on id m
unfolding count_on
count_on-cons id k row m = elim (Bool-cases (row.server_id == id)) [
  | inl a ↦ rw a (omega arith)
  | inr a ↦ rw a (omega arith)
]

-- A write replaces the row of its key.
pub count_on-insert :
    (id : String) (k : ℕ) (row old : OnlineSession) (m : Dict ℕ OnlineSession)
    → lookup k m ≡ some old
    → count_on id (insert k row m) + on id old ≡ count_on id m + on id row
count_on-insert id k row old [] h = cc
count_on-insert id k row old ((j, x) ∷ m) h = elim (Bool-cases (j == k)) [
  | inl a ↦
      let e : x ≡ old = some-injective x old (rw a at h) in
      rw a (rw (count_on-cons, count_on-cons, e) (omega arith))
  | inr a ↦ rw a (
      rw (count_on-cons, count_on-cons) (omega (arith, count_on-insert id k row old m (rw a at h))))
]

pub count_on-insert_new :
    (id : String) (k : ℕ) (row : OnlineSession) (m : Dict ℕ OnlineSession)
    → lookup k m ≡ none
    → count_on id (insert k row m) ≡ count_on id m + on id row
count_on-insert_new id k row [] h = rw count_on-cons (unfold count_on in omega arith)
count_on-insert_new id k row ((j, x) ∷ m) h = elim (Bool-cases (j == k)) [
  | inl a ↦ absurd (cc (rw a at h))
  | inr a ↦ rw a (
      rw (count_on-cons, count_on-cons) (omega (arith, count_on-insert_new id k row m (rw a at h))))
]

erase-Absent : (k : ℕ) (m : Dict ℕ OnlineSession) → Absent k m → erase k m ≡ m
erase-Absent k [] h = refl
erase-Absent k ((j, x) ∷ m) h =
    rw (==-false_of_ne j k h.0) (ap (λ r. (j, x) ∷ r) (erase-Absent k m h.1))

pub Absent-erase : (i k : ℕ) (m : Dict ℕ OnlineSession) → Absent i m → Absent i (erase k m)
Absent-erase i k [] h = tt
Absent-erase i k ((j, x) ∷ m) h = elim (Bool-cases (j == k)) [
  | inl a ↦ rw a (Absent-erase i k m h.1)
  | inr a ↦ rw a (h.0, Absent-erase i k m h.1)
]

pub Distinct-erase : (k : ℕ) (m : Dict ℕ OnlineSession) → Distinct m → Distinct (erase k m)
Distinct-erase k [] h = tt
Distinct-erase k ((j, x) ∷ m) h = elim (Bool-cases (j == k)) [
  | inl a ↦ rw a (Distinct-erase k m h.1)
  | inr a ↦ rw a (Absent-erase j k m h.0, Distinct-erase k m h.1)
]

-- A deletion takes the row of its key away.
pub count_on-erase :
    (id : String) (k : ℕ) (old : OnlineSession) (m : Dict ℕ OnlineSession)
    → Distinct m
    → lookup k m ≡ some old
    → count_on id (erase k m) + on id old ≡ count_on id m
count_on-erase id k old [] d h = cc
count_on-erase id k old ((j, x) ∷ m) d h = elim (Bool-cases (j == k)) [
  | inl a ↦
      let e : x ≡ old = some-injective x old (rw a at h) in
      rw a (
        rw
          (
            count_on-cons,
            e,
            erase-Absent k m (subst (λ i. Absent i m) ((nat_key.agrees j k).0 a) d.0),
          )
          (omega arith))
  | inr a ↦
      rw a (
        rw (count_on-cons, count_on-cons)
          (omega (arith, count_on-erase id k old m d.1 (rw a at h))))
]

-- Dropping the stale sessions does not change the count of a server that had none.
pub count_on-fresh :
    (id : String) (older : ℕ) (m : Dict ℕ OnlineSession)
    → All (λ x. x ≢ id) (stale_servers older m)
    → count_on id (fresh_sessions older m) ≡ count_on id m
unfolding stale_servers fresh_sessions
count_on-fresh id older [] h = refl
count_on-fresh id older ((k, row) ∷ m) h = elim (Bool-cases (ltb row.last_seen_at older)) [
  | inl a ↦ rw a (
      count_on-fresh id older m (tail_of (rw a at h))
      ∙ sym (
          count_on-cons id k row m
          ∙ ap (λ n. n + count_on id m) (none_on (rw a at h))
          ∙ omega arith))
  | inr a ↦ rw a (
      count_on-cons id k row (fresh_sessions older m)
      ∙ ap (λ n. on id row + n) (count_on-fresh id older m (rw a at h))
      ∙ sym (count_on-cons id k row m))
]
  where
    tail_of :
        All (λ x. x ≢ id) (row.server_id ∷ stale_servers older m)
        → All (λ x. x ≢ id) (stale_servers older m)
    tail_of h = h.1

    none_on : All (λ x. x ≢ id) (row.server_id ∷ stale_servers older m) → on id row ≡ 0
    none_on h = rw (==-false_of_ne row.server_id id h.0) refl

-- The rows dropped and the rows kept are all the rows.
pub length-fresh :
    (older : ℕ) (m : Dict ℕ OnlineSession)
    → length (stale_servers older m) + length (fresh_sessions older m) ≡ length m
unfolding stale_servers fresh_sessions
length-fresh older [] = omega arith
length-fresh older ((k, row) ∷ m) = elim (Bool-cases (ltb row.last_seen_at older)) [
  | inl a ↦ rw a (omega (arith, length-fresh older m))
  | inr a ↦ rw a (omega (arith, length-fresh older m))
]

abbrev stays : ℕ → Option OnlineSession → Option OnlineSession
stays older none = none
stays older (some row) = if ltb row.last_seen_at older then none else some row

-- A key that is listed once keeps its row, unless the row is stale.
lookup-fresh :
    (older k : ℕ) (m : Dict ℕ OnlineSession)
    → Distinct m
    → lookup k (fresh_sessions older m) ≡ stays older (lookup k m)
unfolding fresh_sessions
lookup-fresh older k [] d = refl
lookup-fresh older k ((j, x) ∷ m) d = elim (Bool-cases (j == k)) [
  | inr apart ↦ elim (Bool-cases (ltb x.last_seen_at older)) [
    | inl a ↦ rw (a, apart) (lookup-fresh older k m d.1)
    | inr a ↦ rw (a, apart) (lookup-fresh older k m d.1)
  ]
  | inl same ↦ elim (Bool-cases (ltb x.last_seen_at older)) [
    | inl a ↦
        rw (same, a)
          (lookup-fresh older k m d.1
            ∙ ap (stays older)
                (lookup-Absent k m (subst (λ i. Absent i m) ((nat_key.agrees j k).0 same) d.0)))
    | inr a ↦ rw (same, a, same) refl
  ]
]

-- The rows that are kept are those seen at the limit or later.
pub lookup-fresh_iff :
    (older k : ℕ) (row : OnlineSession) (m : Dict ℕ OnlineSession)
    → Distinct m
    → (lookup k (fresh_sessions older m) ≡ some row)
      ↔ ((lookup k m ≡ some row) × (older ≤ row.last_seen_at))
lookup-fresh_iff older k row m d = elim (Option-cases (lookup k m)) [
  | inl gone ↦ (
    λ h. absurd (nothing (sym (lookup-fresh older k m d ∙ ap (stays older) gone) ∙ h)),
    λ h. absurd (nothing (sym gone ∙ h.0)),
  )
  | inr (x, there) ↦ elim (Bool-cases (ltb x.last_seen_at older)) [
    | inl a ↦ (
      λ h.
          absurd
            (nothing (sym (lookup-fresh older k m d ∙ ap (stays older) there ∙ rw a refl) ∙ h)),
      λ h.
          let e : x ≡ row = some-injective x row (sym there ∙ h.0) in
          absurd (late (sym (ap (λ (r : OnlineSession). ltb r.last_seen_at older) e) ∙ a) h.1),
    )
    | inr a ↦
        let kept : lookup k (fresh_sessions older m) ≡ some x =
          lookup-fresh older k m d ∙ ap (stays older) there ∙ rw a refl in
        (
          λ h.
              let e : x ≡ row = some-injective x row (sym kept ∙ h) in
              (
                there ∙ ap some e,
                in_time (sym (ap (λ (r : OnlineSession). ltb r.last_seen_at older) e) ∙ a),
              ),
          λ h. kept ∙ sym there ∙ h.0,
        )
  ]
]
  where
    nothing : none ≡ some row → ⊥
    nothing h = cc h

    late : ltb row.last_seen_at older ≡ true → older ≤ row.last_seen_at → ⊥
    late a le = ground arith

    in_time : ltb row.last_seen_at older ≡ false → older ≤ row.last_seen_at
    in_time a = ground arith
