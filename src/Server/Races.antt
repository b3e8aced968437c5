-- ===== src/Server/Races.antt =====
-- What the handlers of tab connections do when others run between their pieces.
use Prim.Native.String.{String}
use text.Mathlib.TextEquality.{eq_iff}
use mathlib.Core.Path.{subst}
use termulaa.Prelude.{
  ℕ, ◌+◌, Bool, true, false, List, [], ◌∷◌, ◌++◌, Option, none, some, ◌≡◌, refl, sym, ap, ◌∙◌,
  arith, length, ltb, Bool-cases, Option-cases, inl, inr,
}
use termulaa.Dict.{delete, lookup, get-insert, lookup-delete}
use termulaa.Layout.{has_session, session_ids}
use termulaa.Manager.{Manager, Tab, TabClient, delete_session, delete_sessions}
use termulaa.Manager.Owners.{
  clients_of, is_tab_active, disconnect_tab_owner, resume_tab_client, register_tab_client,
  holds_token, can_attach_session, delete_tab,
}
use termulaa.Manager.Disk.{StateFile}
use termulaa.Server.{Bytes, is_valid_id}
use termulaa.Server.TabSocket.{
  Hub, free, crashed, evict, greet, register, choose, resolve, admit, with_manager,
}
use termulaa.Server.Exclusive.{take_over}

delete_sessions-tabs : (ids : List String) (m : Manager) → (delete_sessions ids m).tabs ≡ m.tabs
unfolding delete_sessions delete_session
delete_sessions-tabs [] m = refl
delete_sessions-tabs (id ∷ ids) m = delete_sessions-tabs ids (delete_session id m).1 ∙ ground arith

delete_tab-gone :
    (tab : String) (kill : Bool) (m : Manager) → lookup tab (delete_tab tab kill m).1.tabs ≡ none
unfolding delete_tab disconnect_tab_owner
delete_tab-gone tab kill m = elim (Option-cases (lookup tab m.tabs)) [
  | inl missing ↦ rw (missing, delete_tab) missing
  | inr (t, found) ↦
      let left = (disconnect_tab_owner tab (record m { tabs = delete tab m.tabs })).1 in
      let gone : lookup tab (delete tab m.tabs) ≡ none =
        ground (arith, lookup-delete tab tab m.tabs, eq_iff tab tab) in
      elim (Bool-cases kill) [
        | inl kills ↦
            rw (found, kills, delete_tab)
              (ap (lookup tab) (delete_sessions-tabs (session_ids t.layout) left) ∙ gone)
        | inr keeps ↦ rw (found, keeps, delete_tab) gone
      ]
]

admit-free :
    (tab : String) (conn : ℕ) (t : Tab) (h : Hub)
    → is_valid_id tab ≡ true
    → lookup tab h.manager.tabs ≡ some t
    → clients_of tab h.manager ≡ []
    → admit tab "" conn true h ≡ (free, h)
unfolding admit resume_tab_client is_tab_active
admit-free tab conn t h valid found unowned =
    let idle : ltb 0 (length (clients_of tab h.manager)) ≡ false =
      ap (λ cs. ltb 0 (length cs)) unowned in
    rw (valid, found, idle) refl

attaches :
    (tab session token : String) (t : Tab) (m : Manager) (cs : List TabClient)
    → lookup tab m.tabs ≡ some t
    → has_session session t.layout ≡ true
    → clients_of tab m ≡ cs
    → holds_token token cs ≡ true
    → can_attach_session tab session token m ≡ true
unfolding can_attach_session
attaches tab session token t m cs found there clients held =
    rw (found, there, clients, can_attach_session) held

holds_head : (c : TabClient) (cs : List TabClient) → holds_token c.token (c ∷ cs) ≡ true
unfolding holds_token
holds_head c cs = ground (arith, eq_iff c.token c.token)

holds_second : (c d : TabClient) → holds_token d.token (c ∷ d ∷ []) ≡ true
unfolding holds_token
holds_second c d = ground (arith, eq_iff d.token d.token)

module _ (generate_id : ℕ → String) (pty_start : String → Option ℕ)
    (marshal_state : StateFile → Bytes) where
  take_over-crashes :
      (tab : String) (conn now : ℕ) (h : Hub)
      → lookup tab h.manager.tabs ≡ none
      → (take_over generate_id pty_start marshal_state tab conn now h).0 ≡ crashed
  unfolding resolve choose register greet evict disconnect_tab_owner
  take_over-crashes tab conn now h missing = rw missing refl

  -- When a tab is deleted while a page waits with its choice to take it over, the takeover ends in a
  -- nil pointer: the handler looks the tab up again and does not test for its absence.
  pub delete_tab-crashes :
      (tab : String) (kill : Bool) (conn now : ℕ) (h : Hub)
      → (take_over generate_id pty_start marshal_state tab conn now
          (with_manager (delete_tab tab kill h.manager).1 h)).0
        ≡ crashed
  delete_tab-crashes tab kill conn now h =
      take_over-crashes tab conn now (with_manager (delete_tab tab kill h.manager).1 h)
        (delete_tab-gone tab kill h.manager)

  -- Both registrations of two pages that have passed the check.
  abbrev pub both_in : String → ℕ → ℕ → Hub → Hub
  both_in tab first second h =
      let a = admit tab "" first true h in
      let b = admit tab "" second true a.1 in
      let c = register generate_id pty_start marshal_state tab first (a.0, b.1) in
      (register generate_id pty_start marshal_state tab second (b.0, c.1)).1

  abbrev admitted : String → ℕ → Hub → Hub
  admitted tab conn h = (register generate_id pty_start marshal_state tab conn (free, h)).1

  admitted-clients :
      (tab : String) (conn : ℕ) (h : Hub)
      → clients_of tab (admitted tab conn h).manager
        ≡ clients_of tab h.manager
          ++ record { conn = conn; token = generate_id h.manager.generated } ∷ []
  unfolding register register_tab_client
  admitted-clients tab conn h = ground (
    arith,
    get-insert [] tab tab
        (clients_of tab h.manager
          ++ record { conn = conn; token = generate_id h.manager.generated } ∷ [])
        h.manager.tab_clients,
    eq_iff tab tab,
  )

  admitted-tabs :
      (tab : String) (conn : ℕ) (h : Hub) → (admitted tab conn h).manager.tabs ≡ h.manager.tabs
  unfolding register register_tab_client
  admitted-tabs tab conn h = refl

  both_in-admitted :
      (tab : String) (first second : ℕ) (t : Tab) (h : Hub)
      → is_valid_id tab ≡ true
      → lookup tab h.manager.tabs ≡ some t
      → clients_of tab h.manager ≡ []
      → both_in tab first second h ≡ admitted tab second (admitted tab first h)
  both_in-admitted tab first second t h valid found unowned =
      ap
        (λ a.
          let b = admit tab "" second true a.1 in
          let c = register generate_id pty_start marshal_state tab first (a.0, b.1) in
          (register generate_id pty_start marshal_state tab second (b.0, c.1)).1)
        (admit-free tab first t h valid found unowned)
      ∙ ap
          (λ b.
            let c = register generate_id pty_start marshal_state tab first (free, b.1) in
            (register generate_id pty_start marshal_state tab second (b.0, c.1)).1)
          (admit-free tab second t h valid found unowned)

  -- Of a tab with a valid ID and no owner, let two pages be checked before either is registered: the
  -- tab has two owners, and the tokens of both let panes attach to each of its sessions.
  pub both_in-own :
      (tab session : String) (first second : ℕ) (t : Tab) (h : Hub)
      → is_valid_id tab ≡ true
      → lookup tab h.manager.tabs ≡ some t
      → clients_of tab h.manager ≡ []
      → has_session session t.layout ≡ true
      → (length (clients_of tab (both_in tab first second h).manager) ≡ 2)
        × (can_attach_session tab session
              (generate_id h.manager.generated)
              (both_in tab first second h).manager
            ≡ true)
        × (can_attach_session tab session
              (generate_id (h.manager.generated + 1))
              (both_in tab first second h).manager
            ≡ true)
  unfolding register
  both_in-own tab session first second t h valid found unowned there =
      let one : TabClient = record { conn = first; token = generate_id h.manager.generated } in
      let two : TabClient = record {
        conn = second;
        token = generate_id (h.manager.generated + 1);
      } in
      let found' =
        ap (lookup tab)
          (admitted-tabs tab second (admitted tab first h) ∙ admitted-tabs tab first h)
        ∙ found in
      let clients =
        admitted-clients tab second (admitted tab first h)
        ∙ ap (λ cs. cs ++ two ∷ [])
            (admitted-clients tab first h ∙ ap (λ cs. cs ++ one ∷ []) unowned) in
      subst
        (λ k.
          (length (clients_of tab k.manager) ≡ 2)
          × (can_attach_session tab session one.token k.manager ≡ true)
          × (can_attach_session tab session two.token k.manager ≡ true))
        (sym (both_in-admitted tab first second t h valid found unowned))
        (
          ap length clients,
          attaches tab session one.token t _ (one ∷ two ∷ []) found' there clients
              (holds_head one (two ∷ [])),
          attaches tab session two.token t _ (one ∷ two ∷ []) found' there clients
              (holds_second one two),
        )
