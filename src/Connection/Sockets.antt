-- ===== src/Connection/Sockets.antt =====
-- A connection holds one socket open or none.
use hft_backtester.Prelude.{
  ℕ, ◌≡◌, refl, ap, sym, ◌∙◌, Bool, true, false, ◌⊎◌, Bool-cases, inl, inr, Option, none, some,
  List, [], ◌∷◌, ◌++◌, ◌==◌, take, arith,
}
use mathlib.Core.List.{append_assoc, append-nil}
use hft_backtester.Text.{Bytes}
use hft_backtester.Connection.{
  Connection, Answers, without_socket, given_up, connect_on, connect, connected, ensure_connected,
  closed_sock, reconnect, after_send, send_line, process_database_queue, destroy_connection,
}

-- The socket that is held.
abbrev pub held : Option ℕ → List ℕ
held none = []
held (some s) = s ∷ []

abbrev pub is_some : Option ℕ → Bool
is_some none = false
is_some (some s) = true

-- What is open is the socket that is held, and the connection is active just when there is one.
pub record IsTight (c : Connection) : Type 0 where
  pub opened_eq : c.opened ≡ held c.sock
  pub active_eq : c.active ≡ is_some c.sock

pub without_self : (s : ℕ) (ts : List ℕ) → without_socket s (s ∷ ts) ≡ ts
unfolding without_socket
without_self s ts = let same : (s == s) ≡ true = ground arith in rw same refl

connect_on-IsTight :
    (socket : Option ℕ) (a : Answers) (c : Connection)
    → c.opened ≡ []
    → c.active ≡ false
    → let (ok, c') = connect_on socket a c in
      IsTight c' × (ok ≡ is_some c'.sock) × (c'.sent ≡ c.sent)
unfolding connect_on given_up
connect_on-IsTight none a c none_open idle =
    (record { opened_eq = none_open; active_eq = idle }, refl, refl)
connect_on-IsTight (some s) a c none_open idle = elim (Bool-cases a.options) [
  | inl set ↦ elim (Bool-cases a.connects) [
    | inl up ↦
        rw (set, up)
          (record { opened_eq = ap (λ ts. s ∷ ts) none_open; active_eq = refl }, refl, refl)
    | inr down ↦
        rw (set, down)
          (record { opened_eq = without_self s c.opened ∙ none_open; active_eq = idle }, refl, refl)
  ]
  | inr unset ↦
      rw unset
        (record { opened_eq = without_self s c.opened ∙ none_open; active_eq = idle }, refl, refl)
]

-- What a call that ensures the connection leaves: it says whether there is a socket.
abbrev Ensured : Connection → Bool × Connection → Type 0
Ensured c (ok, c') = IsTight c' × (ok ≡ is_some c'.sock) × (c'.sent ≡ c.sent)

connected-IsTight :
    (o : Option ℕ) (a : Answers) (c : Connection)
    → c.sock ≡ o
    → IsTight c
    → Ensured c (connected o a c)
unfolding connected connect
connected-IsTight none a c e t =
    connect_on-IsTight a.socket a c (t.opened_eq ∙ ap held e) (t.active_eq ∙ ap is_some e)
connected-IsTight (some s) a c e t = (t, sym (ap is_some e), refl)

closed_sock-opened :
    (o : Option ℕ) (c : Connection)
    → c.opened ≡ held o
    → c.sock ≡ o
    → ((closed_sock o c).opened ≡ [])
      × ((closed_sock o c).sock ≡ none)
      × ((closed_sock o c).sent ≡ c.sent)
unfolding closed_sock
closed_sock-opened none c h e = (h, e, refl)
closed_sock-opened (some s) c h e = (ap (without_socket s) h ∙ without_self s [], refl, refl)

reconnect-IsTight :
    (c : Connection) → IsTight c → IsTight (reconnect c) × ((reconnect c).sent ≡ c.sent)
unfolding reconnect
reconnect-IsTight c t =
    let (none_open, no_sock, same) = closed_sock-opened c.sock c t.opened_eq refl in
    (
      record {
        opened_eq = none_open ∙ sym (ap held no_sock);
        active_eq = sym (ap is_some no_sock);
      },
      same,
    )

-- What is sent of a queue: of each line in turn the bytes that its `send` takes, or nothing.
pub data Among : List Bytes → List (Bytes × Answers) → Type 0 where
  none_left : Among [] []
  taken :
      {line : Bytes} {a : Answers} {n : ℕ} {ks : List Bytes} {ls : List (Bytes × Answers)}
      → a.takes ≡ some n
      → Among ks ls
      → Among (take n line ∷ ks) ((line, a) ∷ ls)
  lost :
      {line : Bytes} {a : Answers} {ks : List Bytes} {ls : List (Bytes × Answers)}
      → Among ks ls
      → Among ks ((line, a) ∷ ls)

-- What a call of `send` that succeeds adds, if it was made.
abbrev Grows : Bytes → Answers → List Bytes → List Bytes → Type 0
Grows line a before after =
    ((n : ℕ) × (a.takes ≡ some n) × (after ≡ before ++ take n line ∷ [])) ⊎ (after ≡ before)

after_send-IsTight :
    (o : Option ℕ) (line : Bytes) (a : Answers) (c c' : Connection)
    → a.takes ≡ o
    → IsTight c'
    → c'.sent ≡ c.sent
    → IsTight (after_send o line c') × Grows line a c.sent (after_send o line c').sent
unfolding after_send
after_send-IsTight none line a c c' e t same =
    let (t', same') = reconnect-IsTight c' t in (t', inr (same' ∙ same))
after_send-IsTight (some n) line a c c' e t same = (
  record { opened_eq = t.opened_eq; active_eq = t.active_eq },
  inl (n, e, ap (λ ls. ls ++ take n line ∷ []) same),
)

-- A line is sent, in part or whole, or it is lost.
send_line-IsTight :
    (line : Bytes) (a : Answers) (c : Connection) (r : Bool × Connection)
    → Ensured c r
    → let c' = send_line line a r in IsTight c' × Grows line a c.sent c'.sent
unfolding send_line
send_line-IsTight line a c (false, c') (t, ok, same) = (t, inr same)
send_line-IsTight line a c (true, c') (t, ok, same) =
    after_send-IsTight a.takes line a c c' refl t same

-- From a connection that holds what is open on, any queue of lines and any answers leave such a
-- connection; what was sent is what was sent before and then, in the order of the queue, of some of its
-- lines the bytes that the call of `send` took, with no line twice; and the destructor leaves no socket
-- open.
pub process_database_queue-IsTight :
    (ls : List (Bytes × Answers)) (c : Connection)
    → IsTight c
    → let c' = process_database_queue ls c in
      IsTight c'
      × ((kept : List Bytes) × (c'.sent ≡ c.sent ++ kept) × Among kept ls)
      × ((destroy_connection c').opened ≡ [])
unfolding process_database_queue ensure_connected destroy_connection
process_database_queue-IsTight [] c t =
    let (none_open, no_sock, same) = closed_sock-opened c.sock c t.opened_eq refl in
    (t, ([], sym (append-nil c.sent), none_left), none_open)
process_database_queue-IsTight ((line, a) ∷ ls) c t =
    let next : Connection = send_line line a (connected c.sock a c) in
    let (tight, sent_or_lost) =
      send_line-IsTight line a c (connected c.sock a c) (connected-IsTight c.sock a c refl t) in
    let (t', (kept, split, among), none_open) = process_database_queue-IsTight ls next tight in
    elim sent_or_lost [
      | inl (n, result, more) ↦ (
        t',
        (
          take n line ∷ kept,
          split ∙ ap (λ s. s ++ kept) more ∙ append_assoc c.sent (take n line ∷ []) kept,
          taken result among,
        ),
        none_open,
      )
      | inr same ↦ (t', (kept, split ∙ ap (λ s. s ++ kept) same, lost among), none_open)
    ]
