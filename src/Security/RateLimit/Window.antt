-- ===== src/Security/RateLimit/Window.antt =====
-- Attempts are counted so that no window ever holds more than the limit.
use minecraft_server_manager.Prelude.{
  ℕ, ◌&&◌, ◌+◌, ◌≤◌, ◌≡◌, refl, sym, ap, ◌∙◌, subst, inl, inr, Bool-cases, Bool, true, false, none,
  List, [], ◌∷◌, ◌++◌, append-nil, append_assoc, length, length-append, length-keep, keep, All, ltb,
  leb, arith, if◌then◌else◌, Text, text_key, text_eq, text_eq_iff, Dict, lookup, lookup-insert,
  has_key, insert, IsUnique, insert-IsUnique, absent-lookup,
}
use minecraft_server_manager.Security.RateLimit.{
  SlidingWindowLimiter, max_keys, times, hits_of, drop_old, purge, allow,
}

-- What the loop takes off is out of the window.
drop_old-splits :
    (now window : ℕ) (ts : List ℕ)
    → (old : List ℕ) × (ts ≡ old ++ drop_old now window ts) × All (λ t. t + window ≤ now) old
unfolding drop_old
drop_old-splits now window [] = ([], refl, tt)
drop_old-splits now window (t ∷ ts) = elim (Bool-cases (leb (t + window) now)) [
  | inl past ↦
      let (old, e, h) = drop_old-splits now window ts in
      rw past (t ∷ old, ap (λ l. t ∷ l) e, (ground arith, h))
  | inr recent ↦ rw recent ([], refl, tt)
]

purge-absent :
    (key : Text) (d : Dict Text (List ℕ)) → has_key key d ≡ false → has_key key (purge d) ≡ false
unfolding purge
purge-absent key [] h = refl
purge-absent key ((k, []) ∷ d) h = purge-absent key d (ground arith)
purge-absent key ((k, t ∷ ts) ∷ d) h = ground (arith, purge-absent key d)

purge-IsUnique : (d : Dict Text (List ℕ)) → IsUnique d → IsUnique (purge d)
unfolding purge
purge-IsUnique [] h = tt
purge-IsUnique ((k, []) ∷ d) h = purge-IsUnique d h.1
purge-IsUnique ((k, t ∷ ts) ∷ d) h = (purge-absent k d h.0, purge-IsUnique d h.1)

-- The purge forgets no attempt.
purge-times :
    (key : Text) (d : Dict Text (List ℕ))
    → IsUnique d
    → times (lookup key (purge d)) ≡ times (lookup key d)
unfolding purge
purge-times key [] h = refl
purge-times key ((k, []) ∷ d) h = elim (Bool-cases (text_eq key k)) [
  | inl same ↦
      let gone : lookup key (purge d) ≡ none = absent-lookup key (purge d) (
        purge-absent key d
          (subst (λ x. has_key x d ≡ false) (sym ((text_eq_iff key k).0 same)) h.0)) in
      rw (same, gone) refl
  | inr other ↦ rw other (purge-times key d h.1)
]
purge-times key ((k, t ∷ ts) ∷ d) h = elim (Bool-cases (text_eq key k)) [
  | inl same ↦ rw same refl
  | inr other ↦ rw other (purge-times key d h.1)
]

-- Of the attempts granted to a key, the counted ones (`hits`) are the last; the others are out of the
-- window that ends now.
pub record Accounts (granted hits : List ℕ) (limit window now : ℕ) : Type 0 where
  pub old : List ℕ
  pub splits : granted ≡ old ++ hits
  pub expired : All (λ t. t + window ≤ now) old
  pub bounded : length hits ≤ limit

All-later :
    (window now later : ℕ) (ts : List ℕ)
    → now ≤ later
    → All (λ t. t + window ≤ now) ts
    → All (λ t. t + window ≤ later) ts
All-later window now later [] p h = tt
All-later window now later (t ∷ ts) p h = (omega (arith, h.0), All-later window now later ts p h.1)

All-append : (p : ℕ → Type 0) (ts us : List ℕ) → All p ts → All p us → All p (ts ++ us)
All-append p [] us h k = k
All-append p (t ∷ ts) us h k = (h.0, All-append p ts us h.1 k)

-- The attempts of a list that are still in the window.
abbrev pub recent : ℕ → ℕ → List ℕ → List ℕ
recent now window ts = keep (λ t. ltb now (t + window)) ts

recent-old :
    (now window : ℕ) (old ts : List ℕ)
    → All (λ t. t + window ≤ now) old
    → recent now window (old ++ ts) ≡ recent now window ts
recent-old now window [] ts h = refl
recent-old now window (t ∷ old) ts h =
    let past : ltb now (t + window) ≡ false = ground (arith, h.0) in
    rw past (recent-old now window old ts h.1)

recent_le :
    (granted hits : List ℕ) (limit window now : ℕ)
    → Accounts granted hits limit window now
    → length (recent now window granted) ≤ limit
recent_le granted hits limit window now h =
    rw (h.splits, recent-old now window h.old hits h.expired)
      (omega (arith, h.bounded, length-keep (λ t. ltb now (t + window)) hits))

Accounts-later :
    (granted hits : List ℕ) (limit window now later : ℕ)
    → Accounts granted hits limit window now
    → now ≤ later
    → Accounts granted hits limit window later
Accounts-later granted hits limit window now later h p = record {
  old = h.old;
  splits = h.splits;
  expired = All-later window now later h.old p h.expired;
  bounded = h.bounded;
}

Accounts-store :
    (granted hits : List ℕ) (limit window now later : ℕ) (new : List ℕ)
    → Accounts granted hits limit window now
    → now ≤ later
    → length (drop_old later window hits ++ new) ≤ limit
    → Accounts (granted ++ new) (drop_old later window hits ++ new) limit window later
Accounts-store granted hits limit window now later new h p fits =
    let (gone, e, past) = drop_old-splits later window hits in
    let kept = drop_old later window hits in
    record {
      old = h.old ++ gone;
      splits =
          ap (λ g. g ++ new) (h.splits ∙ ap (λ x. h.old ++ x) e)
          ∙ ap (λ g. g ++ new) (sym (append_assoc h.old gone kept))
          ∙ append_assoc (h.old ++ gone) kept new;
      expired =
          All-append (λ t. t + window ≤ later) h.old gone
            (All-later window now later h.old p h.expired) past;
      bounded = fits;
    }

-- The attempts of each key once those of one key are stored, with or without the purge.
stored-times :
    (key k : Text) (ts : List ℕ) (d : Dict Text (List ℕ)) (purged : Bool)
    → IsUnique d
    → times (lookup key (if purged then purge (insert k ts d) else insert k ts d))
      ≡ (if text_eq key k then ts else times (lookup key d))
stored-times key k ts d false h = rw (lookup-insert k key ts d) (ground arith)
stored-times key k ts d true h =
    purge-times key (insert k ts d) (insert-IsUnique k ts d h)
    ∙ rw (lookup-insert k key ts d) (ground arith)

stored-IsUnique :
    (k : Text) (ts : List ℕ) (d : Dict Text (List ℕ)) (purged : Bool)
    → IsUnique d
    → IsUnique (if purged then purge (insert k ts d) else insert k ts d)
stored-IsUnique k ts d false h = insert-IsUnique k ts d h
stored-IsUnique k ts d true h = purge-IsUnique (insert k ts d) (insert-IsUnique k ts d h)

-- The attempt's time, if it is granted and the key is the one that is followed.
abbrev pub granted_to : Text → Text → ℕ → Bool → List ℕ
granted_to key k now allowed = if allowed && text_eq key k then now ∷ [] else []

-- The account of the followed key stays right when an attempt of some key is stored.
stored-Accounts :
    (granted : List ℕ) (key k : Text) (limit window now later : ℕ) (d : Dict Text (List ℕ))
    (new : List ℕ) (purged : Bool)
    → Accounts granted (times (lookup key d)) limit window now
    → IsUnique d
    → now ≤ later
    → let ts = drop_old later window (times (lookup k d)) ++ new in
      (text_eq key k ≡ true → length ts ≤ limit)
      → Accounts
          (granted ++ (if text_eq key k then new else []))
          (times (lookup key (if purged then purge (insert k ts d) else insert k ts d)))
          limit
          window
          later
stored-Accounts granted key k limit window now later d new purged h u p fits =
    let ts = drop_old later window (times (lookup k d)) ++ new in
    let after = stored-times key k ts d purged u in
    elim (Bool-cases (text_eq key k)) [
      | inl same ↦
          let here : k ≡ key = sym ((text_eq_iff key k).0 same) in
          rw (after, same)
            (subst
              (λ x.
                Accounts (granted ++ new) (drop_old later window (times (lookup x d)) ++ new) limit
                  window later)
              (sym here)
              (Accounts-store granted (times (lookup key d)) limit window now later new h p (
                subst (λ x. length (drop_old later window (times (lookup x d)) ++ new) ≤ limit) here
                  (fits same))))
      | inr other ↦
          rw (after, other, append-nil granted)
            (Accounts-later granted (times (lookup key d)) limit window now later h p)
    ]

-- The limiter, with its two parameters, and the account of the followed key.
pub record IsCounted (limit window : ℕ) (granted : List ℕ) (key : Text) (now : ℕ)
    (l : SlidingWindowLimiter) : Type 0 where
  pub same_limit : l.limit ≡ limit
  pub same_window : l.window ≡ window
  pub unique : IsUnique l.hits
  pub accounts : Accounts granted (hits_of key l) limit window now

nothing_new : (b : Bool) (granted : List ℕ) → granted ++ (if b then [] else []) ≡ granted
nothing_new true granted = append-nil granted
nothing_new false granted = append-nil granted

pub kept_le : (later window : ℕ) (hits : List ℕ) → length (drop_old later window hits) ≤ length hits
unfolding drop_old
kept_le later window [] = omega arith
kept_le later window (t ∷ ts) = ground (arith, kept_le later window ts)

refuse-IsCounted :
    (limit window : ℕ) (granted : List ℕ) (key k : Text) (now later : ℕ) (l : SlidingWindowLimiter)
    → IsCounted limit window granted key now l
    → now ≤ later
    → IsCounted limit window granted key later (record {
      limit = limit;
      window = window;
      hits = insert k (drop_old later window (hits_of k l)) l.hits;
    })
refuse-IsCounted limit window granted key k now later l h p =
    let hits = drop_old later window (hits_of k l) in
    let fits : text_eq key k ≡ true → length (hits ++ []) ≤ limit = λ same. rw (append-nil hits) (
      subst (λ x. length (drop_old later window (hits_of x l)) ≤ limit) ((text_eq_iff key k).0 same)
        (omega (arith, kept_le later window (hits_of key l), h.accounts.bounded))) in
    let stored =
      stored-Accounts granted key k limit window now later l.hits [] false h.accounts h.unique p
        fits in
    record {
      same_limit = refl;
      same_window = refl;
      unique = insert-IsUnique k hits l.hits h.unique;
      accounts =
          subst (λ g. Accounts g (times (lookup key (insert k hits l.hits))) limit window later)
            (nothing_new (text_eq key k) granted)
            (subst
              (λ x.
                Accounts (granted ++ (if text_eq key k then [] else []))
                  (times (lookup key (insert k x l.hits))) limit window later)
              (append-nil hits) stored);
    }

grant-IsCounted :
    (limit window : ℕ) (granted : List ℕ) (key k : Text) (now later : ℕ) (l : SlidingWindowLimiter)
    (purged : Bool)
    → IsCounted limit window granted key now l
    → now ≤ later
    → let ts = drop_old later window (hits_of k l) ++ later ∷ [] in
      (length ts ≤ limit)
      → IsCounted limit window (granted ++ granted_to key k later true) key later (record {
        limit = limit;
        window = window;
        hits = if purged then purge (insert k ts l.hits) else insert k ts l.hits;
      })
grant-IsCounted limit window granted key k now later l purged h p fits = record {
  same_limit = refl;
  same_window = refl;
  unique = stored-IsUnique k _ l.hits purged h.unique;
  accounts =
      stored-Accounts granted key k limit window now later l.hits (later ∷ []) purged h.accounts
        h.unique p (λ same. fits);
}

allow-IsCounted :
    (limit window : ℕ) (granted : List ℕ) (key k : Text) (now later : ℕ) (l : SlidingWindowLimiter)
    → IsCounted limit window granted key now l
    → now ≤ later
    → IsCounted limit window
        (granted ++ granted_to key k later (allow k later l).0)
        key
        later
        (allow k later l).1
unfolding allow
allow-IsCounted limit window granted key k now later l h p =
    let hits = drop_old later window (hits_of k l) in
    rw (h.same_limit, h.same_window)
      (elim (Bool-cases (leb limit (length hits))) [
        | inl full ↦
            rw (full, append-nil granted)
              (refuse-IsCounted limit window granted key k now later l h p)
        | inr room ↦ rw room (
            grant-IsCounted limit window granted key k now later l
              (ltb max_keys (length (insert k (hits ++ later ∷ []) l.hits))) h p
              (ground (arith, length-append hits (later ∷ []))))
      ])

-- A sequence of attempts: who, and when.
abbrev pub serve : SlidingWindowLimiter → List (Text × ℕ) → SlidingWindowLimiter
serve l [] = l
serve l ((k, t) ∷ rest) = serve (allow k t l).1 rest

abbrev pub granted_run : Text → SlidingWindowLimiter → List (Text × ℕ) → List ℕ
granted_run key l [] = []
granted_run key l ((k, t) ∷ rest) =
    granted_to key k t (allow k t l).0 ++ granted_run key (allow k t l).1 rest

-- The clock never goes back.
abbrev pub InOrder : ℕ → List (Text × ℕ) → Type 0
InOrder now [] = Unit
InOrder now ((k, t) ∷ rest) = (now ≤ t) × InOrder t rest

abbrev pub last_time : ℕ → List (Text × ℕ) → ℕ
last_time now [] = now
last_time now ((k, t) ∷ rest) = last_time t rest

serve-IsCounted :
    (limit window : ℕ) (granted : List ℕ) (key : Text) (now : ℕ) (l : SlidingWindowLimiter)
    (attempts : List (Text × ℕ))
    → IsCounted limit window granted key now l
    → InOrder now attempts
    → IsCounted limit window
        (granted ++ granted_run key l attempts)
        key
        (last_time now attempts)
        (serve l attempts)
serve-IsCounted limit window granted key now l [] h o = rw (append-nil granted) h
serve-IsCounted limit window granted key now l ((k, t) ∷ rest) h o =
    let ok = (allow k t l).0 in
    subst (λ g. IsCounted limit window g key (last_time t rest) (serve (allow k t l).1 rest))
      (append_assoc granted (granted_to key k t ok) (granted_run key (allow k t l).1 rest))
      (serve-IsCounted limit window (granted ++ granted_to key k t ok) key t (allow k t l).1 rest
        (allow-IsCounted limit window granted key k now t l h o.0) o.1)

abbrev pub fresh : ℕ → ℕ → SlidingWindowLimiter
fresh limit window = record { limit = limit; window = window; hits = [] }

-- Whatever attempts reach a new limiter, of any keys, in the order of time: of those that it granted
-- to one key, at most `limit` lie in the window that ends at the last attempt. The removal of forgotten keys
-- changes nothing to it.
pub serve-bounded :
    (limit window : ℕ) (key : Text) (attempts : List (Text × ℕ))
    → InOrder 0 attempts
    → length (recent (last_time 0 attempts) window (granted_run key (fresh limit window) attempts))
      ≤ limit
serve-bounded limit window key attempts o =
    let start : IsCounted limit window [] key 0 (fresh limit window) = record {
      same_limit = refl;
      same_window = refl;
      unique = tt;
      accounts = record { old = []; splits = refl; expired = tt; bounded = omega arith };
    } in
    let end = serve-IsCounted limit window [] key 0 (fresh limit window) attempts start o in
    recent_le _ _ limit window (last_time 0 attempts) end.accounts
