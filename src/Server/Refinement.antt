-- ===== src/Server/Refinement.antt =====
-- What a request does to the machine: at most one of its commands.
use riquet.Domain.Errors.{Outcome, err, ok, ◌>>=◌}
use riquet.Domain.Execute.{
  Command, deleting_compatibility, deleting_mode, deleting_subject, deleting_version, execute,
  operation_of, registering, run, setting_compatibility, setting_mode,
}
use riquet.Domain.Json.{Json}
use riquet.Domain.Machine.{Hashes, Machine}
use riquet.Domain.Queries.{lookup, subject_compatibility, subject_mode}
use riquet.Domain.Register.{register}
use riquet.Domain.Snapshot.{State}
use riquet.Domain.Types.{RegisterCommand, Result, SchemaType, no_result, valid_level, valid_mode}
use riquet.Formats.{Engine}
use riquet.Map.{Map}
use riquet.Prelude.{
  Bool-cases, List, Option, Option-cases, String, [], ap, arith, false, inl, inr, length, none,
  number_eq, refl, some, string_eq, true, ◌∙◌, ◌∷◌, ◌≡◌, ◌≤◌, ◌⊎◌,
}
use riquet.Server.{
  Arrival, Call, Checked, Reply, accepted, domain_reply, operation_id, parse_version_path,
  query_bool, rejected,
}
use riquet.Server.Reads.{parse_request}
use riquet.Server.Routes.{
  Route, Server, config, drop_config, drop_mode, drop_subject, drop_version, handle, mode_of,
  new_schema, route, serve, serve_all, set_config, set_mode_of,
}
use riquet.Server.Writes.{
  deleted_reply, post_schema, put_config, put_mode, register_command, registered_reply,
  remove_config, remove_mode, remove_subject, remove_version, scope_of, setting_of, setting_reply,
}

pub Checked-cases {ℓ} :
    {A : Type ℓ} (checked : Checked A)
    → ((reply : Reply) × (checked ≡ rejected reply)) ⊎ ((a : A) × (checked ≡ accepted a))
Checked-cases (rejected reply) = inl (reply, refl)
Checked-cases (accepted a) = inr (a, refl)

-- What the answer says of a command's outcome. A registration can succeed and not be found.
abbrev pub Tells : State → Command → Outcome Result → Reply → Type 0
Tells s c (err x) reply = reply ≡ domain_reply x
Tells s c (ok r) reply =
    (reply.status ≡ 200)
    ⊎ ((registration : RegisterCommand) × (c ≡ registering registration)
        × ((lookup s registration.subject r.version true).2 ≡ false))

registered_reply-Tells :
    (s : State) (c : RegisterCommand) (o : Outcome Result)
    → Tells s (registering c) o (registered_reply s c.subject o)
unfolding registered_reply
registered_reply-Tells s c (err x) = refl
registered_reply-Tells s c (ok r) = elim (Bool-cases (lookup s c.subject r.version true).2) [
  | inl found ↦ rw found (inl refl)
  | inr lost ↦ rw lost (inr (c, refl, lost))
]

deleted_reply-Tells :
    (s : State) (c : Command) (show : Result → Json) (o : Outcome Result)
    → Tells s c o (deleted_reply show o)
unfolding deleted_reply
deleted_reply-Tells s c show (err x) = refl
deleted_reply-Tells s c show (ok r) = inl refl

setting_reply-Tells :
    (s : State) (c : Command) (key value : String) (o : Outcome (Unit {0}))
    → Tells s c (o >>= λ _. ok no_result) (setting_reply key value o)
unfolding setting_reply
setting_reply-Tells s c key value (err x) = refl
setting_reply-Tells s c key value (ok _) = inl refl

module _ {L : Type 0} (hashes : Hashes) where
  -- The ways in which a request ends, over the machine that it met and its operation ID.
  pub data Served (operation : String) (m : Machine L) : Reply × Machine L → Type 0 where
    untouched : (reply : Reply) → Served operation m (reply, m)
    commanded :
        (c : Command) (reply : Reply)
        → operation_of c ≡ operation
        → Tells (execute hashes m c).1.state c (execute hashes m c).0 reply
        → Served operation m (reply, (execute hashes m c).1)

  module _ (operation : String) (m : Machine L) (c : Call) where
    post_schema-Served :
        {N : Type 0} (engines : Map SchemaType (Engine N)) (around : Arrival) (subject : String)
        → Served operation m (post_schema hashes engines around operation m c subject)
    unfolding post_schema execute register_command
    post_schema-Served engines around subject = elim (Checked-cases (parse_request engines m c)) [
      | inl (reply, bad) ↦ rw (bad, post_schema) (untouched reply)
      | inr ((input, parsed), good) ↦
          let command = register_command around operation subject input parsed in
          rw (good, post_schema)
            (commanded (registering command) _ refl (
              registered_reply-Tells (register hashes m command).1.state command
                (register hashes m command).0))
    ]

    remove_version-Served :
        (subject value : String)
        → Served operation m (remove_version hashes operation m c subject value)
    unfolding remove_version execute
    remove_version-Served subject value =
        elim (Checked-cases (parse_version_path m.state subject value true)) [
          | inl (reply, bad) ↦ rw (bad, remove_version) (untouched reply)
          | inr (version, good) ↦
              rw (good, remove_version)
                (commanded
                  (deleting_version (record {
                    operation_id = operation;
                    subject = subject;
                    version = version;
                    permanent = query_bool c "permanent";
                  }))
                  _ refl (deleted_reply-Tells _ _ _ _))
        ]

    remove_subject-Served :
        (subject : String) → Served operation m (remove_subject hashes operation m c subject)
    unfolding remove_subject execute
    remove_subject-Served subject =
        commanded
          (deleting_subject (record {
            operation_id = operation;
            subject = subject;
            permanent = query_bool c "permanent";
          }))
          _ refl (deleted_reply-Tells _ _ _ _)

    put_config-Served :
        (subject : Option String) → Served operation m (put_config hashes operation m c subject)
    unfolding put_config execute
    put_config-Served subject = elim (Option-cases (setting_of "compatibility" valid_level c)) [
      | inl bad ↦ rw (bad, put_config) (untouched _)
      | inr (level, good) ↦
          rw (good, put_config)
            (commanded (setting_compatibility operation (scope_of subject) level) _ refl
              (setting_reply-Tells _ _ _ _ _))
    ]

    put_mode-Served :
        (subject : Option String) → Served operation m (put_mode hashes operation m c subject)
    unfolding put_mode execute
    put_mode-Served subject = elim (Option-cases (setting_of "mode" valid_mode c)) [
      | inl bad ↦ rw (bad, put_mode) (untouched _)
      | inr (mode, good) ↦
          rw (good, put_mode)
            (commanded (setting_mode operation (scope_of subject) mode) _ refl
              (setting_reply-Tells _ _ _ _ _))
    ]

    remove_config-Served :
        (subject : String) → Served operation m (remove_config hashes operation m c subject)
    unfolding remove_config execute
    remove_config-Served subject = elim (Option-cases (subject_compatibility m.state subject)) [
      | inl bad ↦ rw (bad, remove_config) (untouched _)
      | inr (level, good) ↦
          rw (good, remove_config)
            (commanded (deleting_compatibility operation subject) _ refl
              (setting_reply-Tells _ _ _ _ _))
    ]

    remove_mode-Served :
        (subject : String) → Served operation m (remove_mode hashes operation m c subject)
    unfolding remove_mode execute
    remove_mode-Served subject = elim (Option-cases (subject_mode m.state subject)) [
      | inl bad ↦ rw (bad, remove_mode) (untouched _)
      | inr (mode, good) ↦
          rw (good, remove_mode)
            (commanded (deleting_mode operation subject) _ refl (setting_reply-Tells _ _ _ _ _))
    ]

  module _ {N : Type 0} (server : Server N) where
    pub handle-Served :
        (around : Arrival) (operation : String) (m : Machine L) (c : Call) (r : Route)
        → Served operation m (handle hashes server around operation m c r)
    unfolding handle
    handle-Served around operation m c (new_schema subject) =
        post_schema-Served operation m c server.engines around subject
    handle-Served around operation m c (drop_version subject value) =
        remove_version-Served operation m c subject value
    handle-Served around operation m c (drop_subject subject) =
        remove_subject-Served operation m c subject
    handle-Served around operation m c (set_config subject) =
        put_config-Served operation m c subject
    handle-Served around operation m c (set_mode_of subject) = put_mode-Served operation m c subject
    handle-Served around operation m c (drop_config subject) =
        remove_config-Served operation m c subject
    handle-Served around operation m c (drop_mode subject) =
        remove_mode-Served operation m c subject
    handle-Served around operation m c (config none) = untouched _
    handle-Served around operation m c (config (some subject)) = untouched _
    handle-Served around operation m c (mode_of none) = untouched _
    handle-Served around operation m c (mode_of (some subject)) = untouched _
    handle-Served around operation m c _ = untouched _

    -- A request, whatever it asks for, either leaves the machine as it is or does what exactly one
    -- command does, under the request's operation ID, with an answer that tells the command's
    -- outcome.
    pub serve-Served :
        (around : Arrival) (m : Machine L) (c : Call)
        → Served
            (operation_id around c)
            m
            ((serve hashes server around m c).0.1, (serve hashes server around m c).1)
    unfolding serve
    serve-Served around m c = elim (Checked-cases (route c.method c.path)) [
      | inl (reply, bad) ↦ rw (bad, serve) (untouched reply)
      | inr (found, good) ↦
          rw (good, serve)
            (handle-Served around (operation_id around c) m
              (record c { request_id = operation_id around c }) found)
    ]

    Served-command :
        {operation : String} {m : Machine L} {o : Reply × Machine L}
        → Served operation m o
        → (o.1 ≡ m) ⊎ ((c : Command) × (o.1 ≡ (execute hashes m c).1))
    Served-command (untouched reply) = inl refl
    Served-command (commanded c reply named tells) = inr (c, refl)

    -- What requests make of a machine, one after the other, is what some commands make of it, no
    -- more of them than there are requests.
    pub serve_all-run :
        (m : Machine L) (calls : List (Arrival × Call))
        → (cs : List Command) × (serve_all hashes server m calls ≡ run hashes m cs)
          × (length cs ≤ length calls)
    unfolding serve_all run
    serve_all-run m [] = ([], refl, omega arith)
    serve_all-run m ((around, c) ∷ rest) =
        let (cs, same, short) = serve_all-run (serve hashes server around m c).1 rest in
        elim (Served-command (serve-Served around m c)) [
          | inl kept ↦ (cs, same ∙ ap (λ (x : Machine L). run hashes x cs) kept, omega arith)
          | inr (command, made) ↦
              (command ∷ cs, same ∙ ap (λ (x : Machine L). run hashes x cs) made, omega arith)
        ]
