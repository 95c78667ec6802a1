-- ===== src/Telnet/Client/Exec.antt =====
-- The response of `Exec` against what the filter lets through.
use go_oam.Base.{
  ℕ, zero, suc, ◌≤◌, ◌<◌, ◌≡◌, refl, sym, ap, ◌∙◌, inl, inr, Bool, false, Option, none, some, List,
  [], ◌∷◌, ◌++◌, arith, if◌then◌else◌, leb, ltb, length, take, drop, length-take, length-append,
  Bool-cases, Option-cases, ℤ, pos, negsuc, ◌==◌,
}
use go_oam.Telnet.Iac.{IacProcessor, feed, feed_all}
use go_oam.Telnet.Iac.Machine.{append_assoc, append_nil}
use go_oam.Telnet.Client.{Client, ClientError, exec, exec_loop, max_read_of, state_err}

take-append-drop : (n : ℕ) (xs : List ℕ) → take n xs ++ drop n xs ≡ xs
take-append-drop zero xs = refl
take-append-drop (suc n) [] = refl
take-append-drop (suc n) (x ∷ xs) = ap (λ r. x ∷ r) (take-append-drop n xs)

limit_positive : (n : ℤ) → 0 < max_read_of n
limit_positive (pos n) = ground arith
limit_positive (negsuc n) = omega arith

module _ {E : Type 0} where
  -- What a result begins with, and how long it may be.
  record IsResponse (limit : ℕ) (passed : List ℕ) (r : List ℕ × Option (ClientError E))
      : Type 0 where
    pub bounded : length r.0 ≤ limit
    pub begins : (rest : List ℕ) × (r.0 ++ rest ≡ passed)

  exec_loop-IsResponse :
      (limit : ℕ) (finished : Option (List ℕ → Bool)) (iac : IacProcessor) (result : List ℕ)
      (chunks : List (List ℕ)) (err : ClientError E)
      → length result < limit
      → IsResponse limit
          (result ++ (feed_all iac chunks).0)
          (exec_loop limit finished iac result chunks err)
  unfolding exec_loop feed_all
  exec_loop-IsResponse limit finished iac result [] err l =
      elim (Bool-cases (ltb 0 (length result))) [
        | inl some_there ↦ rw some_there (record { bounded = omega arith; begins = ([], refl) })
        | inr none_there ↦
            rw none_there (record { bounded = omega arith; begins = (result ++ [], refl) })
      ]
  exec_loop-IsResponse limit finished iac result (chunk ∷ chunks) err l =
      let (out, iac') = feed iac chunk in
      let passed = (feed_all iac' chunks).0 in
      let later = exec_loop-IsResponse limit finished iac' (result ++ out) chunks err in
      rw (← append_assoc result out passed)
        (elim (Bool-cases (leb limit (length (result ++ out)))) [
          | inl full ↦ rw full (record {
            bounded = omega (arith, length-take limit (result ++ out));
            begins = (
              drop limit (result ++ out) ++ passed,
              sym (append_assoc _ _ passed)
                  ∙ ap (λ r. r ++ passed) (take-append-drop limit (result ++ out)),
            );
          })
          | inr room ↦ elim (Option-cases finished) [
            | inl no_test ↦ rw (room, no_test) (later (ground arith))
            | inr (stops, test) ↦ elim (Bool-cases (stops (result ++ out))) [
              | inl stop ↦
                  rw (room, test, stop) (record { bounded = ground arith; begins = (passed, refl) })
              | inr on ↦ rw (room, test, on) (later (ground arith))
            ]
          ]
        ])

  exec-connected :
      (c : Client E) (max_read : ℤ) (keep_iac : Bool) (cmd_str : List ℕ)
      (finished : Option (List ℕ → Bool)) (chunks : List (List ℕ)) (err : ClientError E)
      → state_err c ≡ none
      → exec c max_read keep_iac cmd_str finished none chunks err
        ≡ exec_loop
            (max_read_of max_read)
            finished
            (record { disabled = keep_iac; pending = [] })
            []
            chunks
            err
  unfolding exec exec_loop
  exec-connected c max_read keep_iac cmd_str finished chunks err e =
      elim (Bool-cases (length cmd_str == 0)) [
        | inl read_only ↦ rw (e, exec) (rw read_only refl)
        | inr writes ↦ rw (e, exec) (rw writes refl)
      ]

  -- `Exec` on a connected client whose write succeeds returns a beginning of what the filter lets
  -- through of the chunks that are read, and no more of it than the limit.
  pub exec_lem :
      (c : Client E) (max_read : ℤ) (keep_iac : Bool) (cmd_str : List ℕ)
      (finished : Option (List ℕ → Bool)) (chunks : List (List ℕ)) (err : ClientError E)
      → state_err c ≡ none
      → (let r = exec c max_read keep_iac cmd_str finished none chunks err in
          (length r.0 ≤ max_read_of max_read)
          × ((rest : List ℕ) × (r.0 ++ rest
                ≡ (feed_all (record { disabled = keep_iac; pending = [] }) chunks).0)))
  exec_lem c max_read keep_iac cmd_str finished chunks err e =
      let response =
        exec_loop-IsResponse (max_read_of max_read) finished
          (record { disabled = keep_iac; pending = [] }) [] chunks err (limit_positive max_read) in
      rw (exec-connected c max_read keep_iac cmd_str finished chunks err e)
        (response.bounded, response.begins)

  drained :
      (limit : ℕ) (iac : IacProcessor) (result : List ℕ) (chunks : List (List ℕ))
      (err : ClientError E)
      → length (result ++ (feed_all iac chunks).0) < limit
      → exec_loop limit none iac result chunks err ≡ (
          let all = result ++ (feed_all iac chunks).0 in
          if ltb 0 (length all) then (all, none) else ([], some err))
  unfolding exec_loop feed_all
  drained limit iac result [] err l = rw append_nil refl
  drained limit iac result (chunk ∷ chunks) err l =
      let (out, iac') = feed iac chunk in
      let passed = (feed_all iac' chunks).0 in
      let whole : length ((result ++ out) ++ passed) < limit = rw append_assoc l in
      let room : leb limit (length (result ++ out)) ≡ false =
        ground (arith, length-append (result ++ out) passed) in
      rw (room, ← append_assoc result out passed)
        (drained limit iac' (result ++ out) chunks err whole)

  -- Without a test, `Exec` reads on until the connection fails. It then returns all that the filter
  -- lets through, when this is shorter than the limit and not empty, and the failure when it is.
  pub exec-drains :
      (c : Client E) (max_read : ℤ) (keep_iac : Bool) (chunks : List (List ℕ)) (err : ClientError E)
      → state_err c ≡ none
      → length (feed_all (record { disabled = keep_iac; pending = [] }) chunks).0
        < max_read_of max_read
      → (let all = (feed_all (record { disabled = keep_iac; pending = [] }) chunks).0 in
          exec c max_read keep_iac [] none none chunks err
          ≡ (if ltb 0 (length all) then (all, none) else ([], some err)))
  exec-drains c max_read keep_iac chunks err e l =
      exec-connected c max_read keep_iac [] none chunks err e
      ∙ drained (max_read_of max_read) (record { disabled = keep_iac; pending = [] }) [] chunks err
          l
