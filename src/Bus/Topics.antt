-- ===== src/Bus/Topics.antt =====
-- A server's pattern covers its own topics only.
use minecraft_server_manager.Prelude.{
  ℕ, ◌≡◌, ◌↔◌, true, [], ◌∷◌, ◌++◌, Text, codes, decimal, decimal_injective, decimal-digits,
  starts_with, starts_with-digits, starts_with-append, ends_with_char, ends_with_char-snoc, arith,
  refl,
}
use minecraft_server_manager.Bus.{dot, server_topic, server_pattern, matches_any}

pattern_ends : (i : ℕ) → ends_with_char dot (server_pattern i) ≡ true
unfolding server_pattern
pattern_ends i = ends_with_char-snoc dot (codes "server." ++ decimal i)

pattern-starts :
    (i j : ℕ) (event : Text)
    → starts_with (server_pattern i) (server_topic j event)
      ≡ starts_with (decimal i ++ (dot ∷ [])) (decimal j ++ (dot ∷ event))
unfolding server_pattern server_topic
pattern-starts i j event =
    starts_with-append (codes "server.") (decimal i ++ (dot ∷ [])) (decimal j ++ (dot ∷ event))

own-prefix :
    (i : ℕ) (event : Text)
    → starts_with (decimal i ++ (dot ∷ [])) (decimal i ++ (dot ∷ event)) ≡ true
own-prefix i event = starts_with-append (decimal i) (dot ∷ []) (dot ∷ event)

-- A subscription to the pattern of server `i` gets an event of server `j` exactly if they are the
-- same server, whatever the event: server 3 does not hear server 31.
pub matches_pattern_iff :
    (i j : ℕ) (event : Text)
    → (matches_any (server_pattern i ∷ []) (server_topic j event) ≡ true) ↔ (i ≡ j)
unfolding matches_any
matches_pattern_iff i j event =
    rw (pattern_ends i, pattern-starts i j event)
      (
        (λ h. decimal_injective i j (
            starts_with-digits (decimal i) (decimal j) event (decimal-digits i) (decimal-digits j)
              (ground arith))),
        (λ e. rw (← e, own-prefix i event) refl),
      )
