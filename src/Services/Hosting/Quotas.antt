-- ===== src/Services/Hosting/Quotas.antt =====
-- hosting_service.py: what the checks of a quota guarantee.
use minecraft_server_manager.Prelude.{
  ℕ, ◌+◌, ◌≤◌, true, false, Option, some, List, [], ◌∷◌, ◌++◌, ltb, Bool-cases, ◌≡◌, refl, ap, sym,
  ◌∙◌, arith, inl, inr,
}
use minecraft_server_manager.Prelude.Fallible.{done}
use minecraft_server_manager.Services.Hosting.{
  Quota, HostingSettings, HostingError, Account, Owned, quota_of_owner, within, memory_online,
  check_total, check_start, not_enough_memory_left,
}

memory_online-append :
    (before after : List Owned)
    → memory_online (before ++ after) ≡ memory_online before + memory_online after
unfolding memory_online
memory_online-append [] after = omega arith
memory_online-append (s ∷ before) after = elim (Bool-cases s.is_running) [
  | inl on ↦ rw on (omega (arith, memory_online-append before after))
  | inr off ↦ rw off (memory_online-append before after)
]

abbrev pub launched : Owned → Owned
launched s = record s { is_running = true }

memory_online-launched :
    (before after : List Owned) (server : Owned)
    → server.is_running ≡ false
    → memory_online (before ++ launched server ∷ after)
      ≡ memory_online (before ++ server ∷ after) + server.memory_max_mb
unfolding memory_online
memory_online-launched before after server off =
    let new = memory_online-append before (launched server ∷ after) in
    let old = memory_online-append before (server ∷ after) in
    let mine : memory_online (server ∷ after) ≡ memory_online after = rw off refl in omega arith

within-passes :
    (limit needed : ℕ) (error : ℕ → HostingError)
    → within (some limit) (λ l. ltb l needed) error ≡ done tt
    → needed ≤ limit
within-passes limit needed error h = elim (Bool-cases (ltb limit needed)) [
  | inl over ↦ let bad = rw over at h in cc
  | inr fine ↦ ground arith
]

-- Where a start is granted to a server that is not running, of an owner whose quota limits the
-- memory online, all the owner's running servers, this one included, hold the limit afterwards.
pub check_start-within :
    (h : HostingSettings) (owner : Option Account) (before after : List Owned) (server : Owned)
    (q : Quota) (limit : ℕ)
    → quota_of_owner h owner ≡ some q
    → q.max_memory_total_mb ≡ some limit
    → server.is_running ≡ false
    → check_start h owner (before ++ server ∷ after) server ≡ done tt
    → memory_online (before ++ launched server ∷ after) ≤ limit
unfolding check_start
check_start-within h owner before after server q limit has_quota has_limit off granted =
    let needed = memory_online (before ++ server ∷ after) + server.memory_max_mb in
    let at_quota : check_total (some q) needed ≡ done tt =
      ap (λ o. check_total o needed) (sym has_quota) ∙ granted in
    let at_limit : within (some limit) (λ l. ltb l needed) (not_enough_memory_left needed)
        ≡ done tt =
      ap (λ o. within o (λ l. ltb l needed) (not_enough_memory_left needed)) (sym has_limit)
      ∙ at_quota in
    let bound = within-passes limit needed (not_enough_memory_left needed) at_limit in
    let sum = memory_online-launched before after server off in omega arith
