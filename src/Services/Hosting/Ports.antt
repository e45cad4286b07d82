-- ===== src/Services/Hosting/Ports.antt =====
-- hosting_service.py: the port that a new server receives.
use minecraft_server_manager.Prelude.{
  ℕ, zero, suc, ◌+◌, ◌-◌, ◌≤◌, ◌<◌, true, false, none, some, List, ◌++◌, ◌==◌, member, nat_eq,
  Bool-cases, Option-cases, ◌≡◌, ap, arith, inl, inr, ◌⊎◌,
}
use minecraft_server_manager.Prelude.Fallible.{done, failed}
use minecraft_server_manager.Services.Hosting.{
  HostingSettings, no_free_port, or_no_port, first_free, allocate_port,
}

-- The first port of a range that is free, all those before it being taken.
abbrev pub IsFirstFree : List ℕ → ℕ → ℕ → Type 0
IsFirstFree used first port =
    (first ≤ port)
    × (member port used ≡ false)
    × ((p : ℕ) → first ≤ p → p < port → member p used ≡ true)

first_free-some :
    (used : List ℕ) (first count port : ℕ)
    → first_free used first count ≡ some port
    → IsFirstFree used first port × (port < first + count)
unfolding first_free
first_free-some used first zero port h = cc
first_free-some used first (suc count) port h = elim (Bool-cases (member first used)) [
  | inl taken ↦
      let (ih, bound) = first_free-some used (first + 1) count port (rw taken at h) in
      (
        (
          omega arith,
          ih.1,
          λ p lo hi. elim (Bool-cases (p == first)) [
            | inl same ↦ let e : p ≡ first = ground arith in rw e taken
            | inr other ↦ ih.2 p (ground arith) hi
          ],
        ),
        omega arith,
      )
  | inr free ↦
      let e : first ≡ port = some_injective (rw free at h) in
      ((omega arith, rw (← e) free, λ p lo hi. absurd (omega arith)), omega arith)
]
  where
    some_injective : {a b : ℕ} → some a ≡ some b → a ≡ b
    some_injective e = cc

first_free-none :
    (used : List ℕ) (first count : ℕ)
    → first_free used first count ≡ none
    → (p : ℕ) → first ≤ p
    → p < first + count
    → member p used ≡ true
unfolding first_free
first_free-none used first zero h p lo hi = absurd (omega arith)
first_free-none used first (suc count) h p lo hi = elim (Bool-cases (member first used)) [
  | inl taken ↦ elim (Bool-cases (p == first)) [
    | inl same ↦ let e : p ≡ first = ground arith in rw e taken
    | inr other ↦
        first_free-none used (first + 1) count (rw taken at h) p (ground arith) (omega arith)
  ]
  | inr free ↦ let bad = rw free at h in cc
]

-- Either a port of the range is given, neither a server's nor reserved, and the least such; or the
-- call fails, and every port of the range is taken.
pub allocate_port_lem :
    (h : HostingSettings) (used reserved : List ℕ)
    → ((port : ℕ) × (allocate_port h used reserved ≡ done port)
        × IsFirstFree (used ++ reserved) h.port_min port
        × (port ≤ h.port_max))
      ⊎ ((allocate_port h used reserved ≡ failed (no_free_port h.port_min h.port_max))
          × ((p : ℕ) → h.port_min ≤ p → p ≤ h.port_max → member p (used ++ reserved) ≡ true))
unfolding allocate_port
allocate_port_lem h used reserved =
    elim (Option-cases (first_free (used ++ reserved) h.port_min (h.port_max + 1 - h.port_min))) [
      | inl nothing ↦ inr (
        ap (or_no_port h) nothing,
        λ p lo hi. first_free-none (used ++ reserved) h.port_min _ nothing p lo (omega arith),
      )
      | inr (port, found) ↦
          let (first, bound) = first_free-some (used ++ reserved) h.port_min _ port found in
          inl (port, ap (or_no_port h) found, first, omega arith)
    ]
