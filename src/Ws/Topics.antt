-- ===== src/Ws/Topics.antt =====
-- The sender of an event, read back from its topic.
use minecraft_server_manager.Prelude.{
  ℕ, ◌≡◌, refl, ap, ◌∙◌, false, some, Text, codes, decimal, decimal-digits, read_int-decimal, split,
  split-part, split-last, has_char, has_char-digits, [], ◌∷◌, ◌++◌,
}
use minecraft_server_manager.Bus.{server_topic, dot}
use minecraft_server_manager.Ws.{split_topic}

topic_parts :
    (i : ℕ) (event : Text)
    → has_char dot event ≡ false
    → split dot (server_topic i event) ≡ codes "server" ∷ decimal i ∷ event ∷ []
unfolding server_topic
topic_parts i event h =
    split-part dot (codes "server") (decimal i ++ (dot ∷ event)) refl
    ∙ ap (λ ps. codes "server" ∷ ps)
        (split-part dot (decimal i) event (has_char-digits (decimal i) (decimal-digits i))
          ∙ ap (λ ps. decimal i ∷ ps) (split-last dot event h))

-- The connection reads back, from the topic that `server_topic` builds for a server and an event
-- without a full stop in its name, that server and that event.
pub split_topic-server_topic :
    (i : ℕ) (event : Text)
    → has_char dot event ≡ false
    → split_topic (server_topic i event) ≡ (some i, event)
unfolding split_topic
split_topic-server_topic i event h = rw (topic_parts i event h, read_int-decimal i) refl
