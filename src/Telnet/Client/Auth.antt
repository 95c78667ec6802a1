-- ===== src/Telnet/Client/Auth.antt =====
-- pkg/telnet/client.go: the methods that write to the connection, `Auth` among them.
use go_oam.Base.{
  ℕ, Bool, ◌&&◌, Option, none, some, List, [], ◌∷◌, ◌++◌, ◌==◌, if◌then◌else◌, length, ◌≡◌, arith,
}
use go_oam.Telnet.Client.{
  Client, ClientError, client_not_connected, eof, network, in_auth_user, in_auth_password,
  in_window_change, state_err,
}

-- What one of the two steps of `Auth` meets.
pub record Step (E : Type 0) : Type 0 where
  pub timed_out : Bool
  pub sent : Option E

module _ {E : Type 0} where
  -- The error of `getConn`, which otherwise returns the connection.
  unfoldable pub get_conn : Client E → Option (ClientError E)
  get_conn c = elim (state_err c) [
    | some err ↦ some err
    | none ↦ if c.conn then none else some client_not_connected
  ]

  -- `sent` is the error of the connection's write, if it fails.
  unfoldable pub write : Client E → Option E → Option (ClientError E)
  unfolding get_conn
  write c sent = elim (get_conn c) [
    | some err ↦ some err
    | none ↦ elim sent [ none ↦ none | some e ↦ some (network e) ]
  ]

  unfoldable pub window_change : Client E → Option E → Option (ClientError E)
  unfolding write
  window_change c sent = elim (write c sent) [
    | none ↦ none
    | some err ↦ some (in_window_change err)
  ]

  -- `timed_out` says that the timer is what the `select` chooses, or the only thing that comes.
  unfoldable pub drain_prompt : Client E → Bool → Option (ClientError E) × Client E
  drain_prompt c timed_out = elim (state_err c) [
    | some err ↦ (some err, c)
    | none ↦ if timed_out then (none, c) else elim c.output [
      | chunk ∷ later ↦ (none, record c { output = later })
      | [] ↦ (some eof, c)
    ]
  ]

  -- A step: its error, the bytes that are handed to the connection, and the client.
  unfoldable pub credential :
      (ClientError E → ClientError E)
      → Client E
      → Step E
      → List ℕ
      → List ℕ
      → Option (ClientError E) × (List (List ℕ) × Client E)
  unfolding drain_prompt write
  credential wrap c step text newline =
      if length text == 0
      then (none, ([], c))
      else (let (err, c') = drain_prompt c step.timed_out in
          elim err [
            | some e ↦ (some e, ([], c'))
            | none ↦ elim (write c' step.sent) [
              | some e ↦ (some (wrap e), ([], c'))
              | none ↦ (none, ((text ++ newline) ∷ [], c'))
            ]
          ])

  -- `Auth`; the default of an empty `Newline` is a carriage return and a line feed.
  unfoldable pub auth :
      Client E
      → Step E
      → Step E
      → List ℕ
      → List ℕ
      → List ℕ
      → Option (ClientError E) × (List (List ℕ) × Client E)
  unfolding credential
  auth c at_user at_password user password newline =
      let line_end = if length newline == 0 then 13 ∷ 10 ∷ [] else newline in
      if (length user == 0) && (length password == 0) then (none, ([], c)) else elim (state_err c) [
        | some err ↦ (some err, ([], c))
        | none ↦
            let first = credential in_auth_user c at_user user line_end in
            elim first.0 [
              | some err ↦ first
              | none ↦
                  let second =
                    credential in_auth_password first.1.1 at_password password line_end in
                  (second.0, (first.1.0 ++ second.1.0, second.1.1))
            ]
      ]

  credential_lem :
      (wrap : ClientError E → ClientError E) (c : Client E) (step : Step E) (text newline : List ℕ)
      → (credential wrap c step text newline).0 ≡ none
      → (credential wrap c step text newline).1.0
        ≡ (if length text == 0 then [] else (text ++ newline) ∷ [])
  unfolding credential
  credential_lem wrap c step text newline ok = ground arith

  -- An `Auth` without an error has written a line with the user and then one with the password,
  -- each unless it is empty, and nothing else.
  pub auth_lem :
      (c : Client E) (at_user at_password : Step E) (user password newline : List ℕ)
      → (auth c at_user at_password user password newline).0 ≡ none
      → (let line_end = if length newline == 0 then 13 ∷ 10 ∷ [] else newline in
          (auth c at_user at_password user password newline).1.0
          ≡ (if length user == 0 then [] else (user ++ line_end) ∷ [])
            ++ (if length password == 0 then [] else (password ++ line_end) ∷ []))
  unfolding auth
  auth_lem c at_user at_password user password newline ok =
      let line_end = if length newline == 0 then 13 ∷ 10 ∷ [] else newline in
      let first = credential in_auth_user c at_user user line_end in
      ground (
        arith,
        credential_lem in_auth_user c at_user user line_end,
        credential_lem in_auth_password first.1.1 at_password password line_end,
      )
