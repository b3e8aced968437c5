-- ===== src/Server/OneOwner.antt =====
-- The number of owners of a tab, along the operations of the registry.
use Prim.Native.String.{String}
use text.Mathlib.Text.{◌==◌ as str_eq}
use termulaa.Prelude.{
  ℕ, suc, ◌≤◌, false, List, [], ◌∷◌, ◌++◌, Option, none, some, ◌≡◌, refl, ap, arith, ◌==◌, ltb,
  length, length-append, Bool-cases, Option-cases, inl, inr,
}
use termulaa.Dict.{insert, get, delete, get-insert, get-delete}
use termulaa.Manager.{Manager, TabClient}
use termulaa.Manager.Owners.{
  clients_of, swap_holder, resume_tab_client, register_tab_client, remove_conn,
  unregister_tab_client,
}
use termulaa.Server.Clients.{SameClients}

-- No tab has more than one owner.
abbrev pub HasOneOwner : Manager → Type 0
HasOneOwner m = (tab : String) → length (clients_of tab m) ≤ 1

pub same-HasOneOwner : (m n : Manager) → SameClients m n → HasOneOwner m → HasOneOwner n
same-HasOneOwner m n e h tab = omega (arith, h tab, ap (λ cs. length (get [] tab cs)) e)

-- The number of clients left, of those in `cs` where none holds the token.
abbrev swapped_length : Option (ℕ × List TabClient) → List TabClient → ℕ
swapped_length none cs = length cs
swapped_length (some (old, cs')) cs = length cs'

length-swap_holder :
    (token : String) (conn : ℕ) (cs : List TabClient)
    → swapped_length (swap_holder token conn cs) cs ≡ length cs
unfolding swap_holder
length-swap_holder token conn [] = refl
length-swap_holder token conn (c ∷ cs) = elim (Bool-cases (str_eq c.token token)) [
  | inl holder ↦ rw (holder, swap_holder) refl
  | inr other ↦ elim (Option-cases (swap_holder token conn cs)) [
    | inl unheld ↦ rw (other, unheld, swap_holder) refl
    | inr ((old, cs'), held) ↦
        let shorter = length-swap_holder token conn cs in
        rw (other, held, swap_holder) (ap suc (rw held at shorter))
  ]
]

length-remove_conn : (conn : ℕ) (cs : List TabClient) → length (remove_conn conn cs) ≤ length cs
unfolding remove_conn
length-remove_conn conn [] = omega arith
length-remove_conn conn (c ∷ cs) = ground (arith, length-remove_conn conn cs)

-- A list put in place of a tab's clients that is no longer than allowed.
insert-HasOneOwner :
    (tab : String) (cs : List TabClient) (m : Manager)
    → HasOneOwner m
    → length cs ≤ 1
    → HasOneOwner (record m { tab_clients = insert tab cs m.tab_clients })
insert-HasOneOwner tab cs m h k other =
    ground (arith, get-insert [] tab other cs m.tab_clients, h other)

pub delete-HasOneOwner :
    (tab : String) (m : Manager)
    → HasOneOwner m
    → HasOneOwner (record m { tab_clients = delete tab m.tab_clients })
delete-HasOneOwner tab m h other = ground (arith, get-delete [] tab other m.tab_clients, h other)

pub unregister-HasOneOwner :
    (tab : String) (conn : ℕ) (m : Manager)
    → HasOneOwner m
    → HasOneOwner (unregister_tab_client tab conn m)
unfolding unregister_tab_client
unregister-HasOneOwner tab conn m h =
    let left = remove_conn conn (clients_of tab m) in
    elim (Bool-cases (length left == 0)) [
      | inl none_left ↦ rw none_left (delete-HasOneOwner tab m h)
      | inr some_left ↦ rw some_left (
          insert-HasOneOwner tab left m h
            (omega (arith, length-remove_conn conn (clients_of tab m), h tab)))
    ]

pub resume-HasOneOwner :
    (tab token : String) (conn : ℕ) (m : Manager)
    → HasOneOwner m
    → HasOneOwner (resume_tab_client tab token conn m).1
unfolding resume_tab_client
resume-HasOneOwner tab token conn m h = elim (Bool-cases (str_eq token "")) [
  | inl unnamed ↦ rw unnamed h
  | inr named ↦ elim (Option-cases (swap_holder token conn (clients_of tab m))) [
    | inl unheld ↦ rw (named, unheld) h
    | inr ((old, cs), held) ↦
        rw (named, held)
          (insert-HasOneOwner tab cs m h (
            omega (
              arith,
              ap (λ o. swapped_length o (clients_of tab m)) held,
              length-swap_holder token conn (clients_of tab m),
              h tab,
            )))
  ]
]

pub register-HasOneOwner :
    (tab : String) (c : TabClient) (m : Manager)
    → HasOneOwner m
    → clients_of tab m ≡ []
    → HasOneOwner (register_tab_client tab c m)
unfolding register_tab_client
register-HasOneOwner tab c m h e =
    insert-HasOneOwner tab (clients_of tab m ++ c ∷ []) m h
      (omega (arith, ap length e, length-append (clients_of tab m) (c ∷ [])))

pub no_clients : (cs : List TabClient) → ltb 0 (length cs) ≡ false → cs ≡ []
no_clients [] h = refl
no_clients (c ∷ cs) h = absurd (ground (arith, h))
