-- ===== src/Cli/Lines.antt =====
-- What lines typed at the prompt of cmd/coordinator/main.go can do.
use Prim.Native.Char.{Char, code}
use ensemble_chat.Common.{
  ℕ, ◌≡◌, ◌⊎◌, inl, inr, refl, ap, sym, ◌∙◌, Bool, true, false, not, ◌||◌, Option, some, List, [],
  ◌∷◌, String, if◌then◌else◌, Bool-cases, List-cases,
}
use ensemble_chat.Types.{ChangeType}
use ensemble_chat.Election.{is_leader}
use ensemble_chat.TokenRing.{Effect, TokenRingManager, get_next_node, get_status, release_access}
use ensemble_chat.TokenRing.Passing.{release_access_cases}
use ensemble_chat.RaftLog.Proposal.{WaitEvent}
use ensemble_chat.Coordinator.{CoordinatorNode, kill, acquire_lock, release_lock}
use ensemble_chat.Coordinator.Leading.{propose_change_refused}
use ensemble_chat.Cli.Text.{
  is_empty, is_space, trim_left, trim_right, trim_space, add_field, fields_from, fields,
}
use ensemble_chat.Cli.Commands.{
  Command, blank, help, status, token, state, quit, lock, unlock, propose, usage, unknown_change,
  unknown, dispatch, read_command, only_reply, shown_token, unlocked, proposed, Turn, run_command,
  run_line,
}

-- Some character is no white space.
abbrev has_text : String → Bool
has_text String.[] = false
has_text (String.◌∷◌ c s) = let rest = has_text s in not (is_space (code c)) || rest

trim_left-has_text : (s : String) → has_text (trim_left s) ≡ has_text s
unfolding trim_left
trim_left-has_text String.[] = refl
trim_left-has_text (String.◌∷◌ c s) = elim (Bool-cases (is_space (code c))) [
  | inl b ↦ rw b (trim_left-has_text s)
  | inr b ↦ rw b (rw b refl)
]

blank_or_text :
    (c : Char) (s : String) (b : Bool)
    → is_empty s ≡ not b
    → is_empty (if not b then "" else String.◌∷◌ c s) ≡ not b
blank_or_text c s true h = refl
blank_or_text c s false h = refl

-- Trimming the end leaves nothing exactly of white space, and does not change the fields.
trim_right-is_empty : (s : String) → is_empty (trim_right s) ≡ not (has_text s)
unfolding trim_right
trim_right-is_empty String.[] = refl
trim_right-is_empty (String.◌∷◌ c s) = elim (Bool-cases (is_space (code c))) [
  | inl b ↦
      rw (b, trim_right-is_empty s)
        (blank_or_text c (trim_right s) (has_text s) (trim_right-is_empty s))
  | inr b ↦ rw b refl
]

trim_left-fields : (s : String) → fields (trim_left s) ≡ fields s
unfolding trim_left fields fields_from
trim_left-fields String.[] = refl
trim_left-fields (String.◌∷◌ c s) = elim (Bool-cases (is_space (code c))) [
  | inl b ↦ rw b (trim_left-fields s)
  | inr b ↦ rw b (rw b refl)
]

empty_text : (s : String) → is_empty s ≡ true → s ≡ ""
empty_text String.[] h = refl
empty_text (String.◌∷◌ c s) h = absurd (cc)

trim_right-fields_from : (s : String) → fields_from (trim_right s) ≡ fields_from s
unfolding trim_right fields_from
trim_right-fields_from String.[] = refl
trim_right-fields_from (String.◌∷◌ c s) = elim (Bool-cases (is_space (code c))) [
  | inr b ↦ rw b (rw (b, trim_right-fields_from s) refl)
  | inl b ↦ elim (Bool-cases (is_empty (trim_right s))) [
    | inl e ↦
        rw (b, e, sym (trim_right-fields_from s) ∙ ap fields_from (empty_text (trim_right s) e))
          refl
    | inr e ↦ rw (b, e) (rw (b, trim_right-fields_from s) refl)
  ]
]

trim_space-fields : (s : String) → fields (trim_space s) ≡ fields s
unfolding trim_space fields
trim_space-fields s =
    ap (λ x. add_field x.0 x.1) (trim_right-fields_from (trim_left s)) ∙ trim_left-fields s

trim_space-is_empty : (s : String) → is_empty (trim_space s) ≡ not (has_text s)
unfolding trim_space
trim_space-is_empty s = trim_right-is_empty (trim_left s) ∙ ap not (trim_left-has_text s)

abbrev no_fields : List String → Bool
no_fields [] = true
no_fields (field ∷ rest) = false

fields-has_text : (s : String) → no_fields (fields s) ≡ not (has_text s)
unfolding fields fields_from
fields-has_text String.[] = refl
fields-has_text (String.◌∷◌ c s) = elim (Bool-cases (is_space (code c))) [
  | inl b ↦ rw b (fields-has_text s)
  | inr b ↦ rw b refl
]

read_blank : (text : String) → is_empty (trim_space text) ≡ true → read_command text ≡ some blank
unfolding read_command
read_blank text e = rw (e, read_command) refl

read_fields :
    (text cmd : String) (args : List String)
    → is_empty (trim_space text) ≡ false
    → fields (trim_space text) ≡ cmd ∷ args
    → read_command text ≡ some (dispatch cmd args)
unfolding read_command
read_fields text cmd args e e' = rw (e, e', read_command) refl

-- A line is read without a panic, by its fields.
pub read_command_lem :
    (text : String)
    → ((fields text ≡ []) × (read_command text ≡ some blank))
      ⊎ ((cmd : String) × (args : List String) × (fields text ≡ cmd ∷ args)
          × (read_command text ≡ some (dispatch cmd args)))
read_command_lem text =
    let counted = fields-has_text text in
    let trimmed = trim_space-is_empty text in
    elim (List-cases (fields text)) [
      | inl e ↦ inl (e, read_blank text (trimmed ∙ sym counted ∙ ap no_fields e))
      | inr (cmd, args, e) ↦ inr (
        cmd,
        args,
        e,
        read_fields text cmd args (trimmed ∙ sym counted ∙ ap no_fields e)
            (trim_space-fields text ∙ e),
      )
    ]

-- The turn leaves the election and the Raft log alone and sends no entries.
abbrev pub KeepsLog : CoordinatorNode → Option Turn → Type 0
KeepsLog n o =
    (t : Turn) × (o ≡ some t)
    × (t.node.election ≡ n.election)
    × (t.node.raft_log ≡ n.raft_log)
    × (t.sent ≡ [])

released :
    (n : CoordinatorNode) (resource requester : String) (t : TokenRingManager) (es : List Effect)
    (ok : Bool)
    → release_access n.token_ring resource requester ≡ some (t, es, ok)
    → release_lock n resource requester ≡ some (record n { token_ring = t }, es, ok)
unfolding release_lock
released n resource requester t es ok r = rw (r, release_lock) refl

release_lock_total :
    (n : CoordinatorNode) (resource requester : String) (next_node : ℕ)
    → get_next_node n.token_ring ≡ some next_node
    → (m : CoordinatorNode) × (es : List Effect) × (ok : Bool) × (release_lock n resource requester
        ≡ some (m, es, ok))
      × (m.election ≡ n.election)
      × (m.raft_log ≡ n.raft_log)
release_lock_total n resource requester next_node e =
    elim (release_access_cases n.token_ring resource requester) [
      | inl (_, r) ↦ (_, _, _, released n resource requester _ _ _ r, refl, refl)
      | inr (inl (_, (_, _, _, r))) ↦ (_, _, _, released n resource requester _ _ _ r, refl, refl)
      | inr (inr (inl (_, _, (_, _, r)))) ↦
          (_, _, _, released n resource requester _ _ _ r, refl, refl)
      | inr (inr (inr (_, _, e', _))) ↦ absurd (cc (e, e'))
    ]

module _ (n : CoordinatorNode) (ticket : ℕ) (clock : ℕ → ℕ) (es : List WaitEvent) (next_node : ℕ)
    (there : get_next_node n.token_ring ≡ some next_node)
    (follows : (is_leader n.election ≡ false) ⊎ (n.raft_log.is_leader ≡ false)) where
  token_turn :
      run_command n token ticket clock es
      ≡ some (
          only_reply n (
            shown_token n.token_ring.has_token n.token_ring.in_cs n.token_ring.cs_resource
              n.token_ring.cs_holder next_node))
  unfolding run_command get_status
  token_turn = rw (there, run_command) refl

  unlock_turn :
      (resource requester : String) (m : CoordinatorNode) (effects : List Effect) (ok : Bool)
      → release_lock n resource requester ≡ some (m, effects, ok)
      → run_command n (unlock resource requester) ticket clock es
        ≡ some (record { node = m; reply = unlocked ok; ring_effects = effects; sent = [] })
  unfolding run_command
  unlock_turn resource requester m effects ok e = rw (e, run_command) refl

  propose_turn :
      (tx_id : String) (change : ChangeType) (key value : String)
      → run_command n (propose tx_id change key value) ticket clock es
        ≡ some (only_reply n (proposed false))
  unfolding run_command
  propose_turn tx_id change key value =
      rw (propose_change_refused n change key value clock es follows, run_command) refl

  command_keeps : (command : Command) → KeepsLog n (run_command n command ticket clock es)
  unfolding run_command acquire_lock kill
  command_keeps blank = (_, refl, refl, refl, refl)
  command_keeps help = (_, refl, refl, refl, refl)
  command_keeps status = (_, refl, refl, refl, refl)
  command_keeps token = (_, token_turn, refl, refl, refl)
  command_keeps state = (_, refl, refl, refl, refl)
  command_keeps quit = (_, refl, refl, refl, refl)
  command_keeps (lock resource requester) = (_, refl, refl, refl, refl)
  command_keeps (unlock resource requester) =
      let (m, effects, ok, e, same, same') =
        release_lock_total n resource requester next_node there in
      (_, unlock_turn resource requester m effects ok e, same, same', refl)
  command_keeps (propose tx_id change key value) =
      (_, propose_turn tx_id change key value, refl, refl, refl)
  command_keeps usage = (_, refl, refl, refl, refl)
  command_keeps (unknown_change change) = (_, refl, refl, refl, refl)
  command_keeps (unknown cmd) = (_, refl, refl, refl, refl)

  line_keeps :
      (text : String) (command : Command)
      → read_command text ≡ some command
      → KeepsLog n (run_line n text ticket clock es)
  unfolding run_line
  line_keeps text command e = rw (e, run_line) (command_keeps command)

-- On a node whose election module or Raft log does not take it for the leader, and whose ring has a next
-- node, no line of text that is typed at the prompt panics: it leaves the state of the election and of the
-- Raft log as they are and sends no entries.
pub follower_line_keeps_log :
    (n : CoordinatorNode) (text : String) (ticket : ℕ) (clock : ℕ → ℕ) (es : List WaitEvent)
    (next_node : ℕ)
    → get_next_node n.token_ring ≡ some next_node
    → (is_leader n.election ≡ false) ⊎ (n.raft_log.is_leader ≡ false)
    → (t : Turn) × (run_line n text ticket clock es ≡ some t)
      × (t.node.election ≡ n.election)
      × (t.node.raft_log ≡ n.raft_log)
      × (t.sent ≡ [])
follower_line_keeps_log n text ticket clock es next_node there follows =
    elim (read_command_lem text) [
      | inl (_, e) ↦ line_keeps n ticket clock es next_node there follows text blank e
      | inr (cmd, args, _, e) ↦
          line_keeps n ticket clock es next_node there follows text (dispatch cmd args) e
    ]
