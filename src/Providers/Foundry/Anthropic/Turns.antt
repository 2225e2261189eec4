-- ===== src/Providers/Foundry/Anthropic/Turns.antt =====
-- The turns of a request to Anthropic's protocol, whose roles must take turns.
use openai_compatible_bridge.Prelude.{true, false, List, [], ◌∷◌, ◌≡◌, by_branches, str_eq}
use openai_compatible_bridge.Prelude.Result.{Ensures, Ensures-bind, Ensures-then}
use openai_compatible_bridge.Json.{Value, Values, nil, cons, get, list, truthy}
use openai_compatible_bridge.Providers.Vertex.Reading.{Builtins, dict_of, extract_message_text}
use openai_compatible_bridge.Providers.Foundry.Anthropic.{
  Role, user, assistant, Turn, same_role, Codec, joined_content, append_anthropic_turn,
  Conversation, assistant_content, tool_block, or_empty_text, role_of, added, take_message,
  take_messages, some_turns, conversation_of,
}

-- Neighbours have different roles.
pub Alternate : List Turn → Type 0
Alternate [] = Unit
Alternate (t ∷ []) = Unit
Alternate (t ∷ u ∷ turns) = (same_role u.role t.role ≡ false) × Alternate (u ∷ turns)

-- There is a turn, and neighbours have different roles.
pub AreTurns : List Turn → Type 0
AreTurns [] = true ≡ false
AreTurns (t ∷ turns) = Alternate (t ∷ turns)

-- Only the role of the newest turn matters.
Alternate-content :
    (t : Turn) (turns : List Turn) (c : Value)
    → Alternate (t ∷ turns)
    → Alternate (record { role = t.role; content = c } ∷ turns)
unfolding Alternate
Alternate-content t [] c h = tt
Alternate-content t (u ∷ turns) c h = h

module _ (builtins : Builtins) where
  append-Alternate :
      (turns : List Turn) (role : Role) (content : Value)
      → Alternate turns
      → Ensures Alternate (append_anthropic_turn builtins turns role content)
  unfolding append_anthropic_turn Alternate
  append-Alternate [] role content h = tt
  append-Alternate (t ∷ turns) role content h =
      by_branches (Ensures Alternate) (same_role t.role role)
        (λ e.
          Ensures-then Alternate (joined_content builtins t.content content) _
            (λ c. Alternate-content t turns c h))
        (λ e. (e, h))

module _ (builtins : Builtins) (codec : Codec) where
  TakeTurns : Conversation → Type 0
  TakeTurns c = Alternate c.turns

  added-TakeTurns :
      (c : Conversation) (role : Role) (content : Value)
      → TakeTurns c
      → Ensures TakeTurns (added builtins codec c role content)
  unfolding TakeTurns
  added-TakeTurns c role content h =
      Ensures-bind Alternate TakeTurns _ _ (append-Alternate builtins c.turns role content h)
        (λ turns k. k)

  take_message-TakeTurns :
      (c : Conversation) (message : Value)
      → TakeTurns c
      → Ensures TakeTurns (take_message builtins codec c message)
  unfolding take_message TakeTurns
  take_message-TakeTurns c message h = Ensures-then TakeTurns (dict_of message) _ (λ m.
      by_branches (Ensures TakeTurns) (str_eq (role_of builtins codec m) "system")
        (λ s.
          by_branches (Ensures TakeTurns) (truthy (get "content" m))
            (λ t.
              Ensures-then TakeTurns (extract_message_text builtins (get "content" m)) _
                (λ text. h))
            (λ t. h))
        (λ s.
          by_branches (Ensures TakeTurns) (str_eq (role_of builtins codec m) "assistant")
            (λ a.
              Ensures-then TakeTurns (assistant_content builtins codec m) _
                (λ blocks. added-TakeTurns c assistant blocks h))
            (λ a.
              by_branches (Ensures TakeTurns) (str_eq (role_of builtins codec m) "tool")
                (λ t. added-TakeTurns c user (list (cons (tool_block builtins codec m) nil)) h)
                (λ t. added-TakeTurns c user (or_empty_text (get "content" m)) h))))

  take_messages-TakeTurns :
      (c : Conversation) (messages : Values)
      → TakeTurns c
      → Ensures TakeTurns (take_messages builtins codec c messages)
  unfolding take_messages
  take_messages-TakeTurns c nil h = h
  take_messages-TakeTurns c (cons m ms) h =
      Ensures-bind TakeTurns TakeTurns _ _ (take_message-TakeTurns c m h)
        (λ next k. take_messages-TakeTurns next ms k)

  some-AreTurns : (turns : List Turn) → Alternate turns → AreTurns (some_turns turns)
  unfolding AreTurns Alternate
  some-AreTurns [] h = tt
  some-AreTurns (t ∷ turns) h = h

  -- Whatever messages a request holds, in whatever order their roles come: if it is sent, it has a
  -- turn, and turns of the user and of the assistant follow one another by turns.
  pub conversation_of-AreTurns :
      (messages : Values)
      → Ensures (λ (c : Conversation). AreTurns c.turns) (conversation_of builtins codec messages)
  unfolding conversation_of TakeTurns Alternate
  conversation_of-AreTurns messages =
      Ensures-bind TakeTurns (λ (c : Conversation). AreTurns c.turns) _ _
        (take_messages-TakeTurns (record { system_parts = []; turns = [] }) messages tt)
        (λ c k. some-AreTurns c.turns k)
