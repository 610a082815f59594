-- ===== src/AccessLog/Sender/Laws.antt =====
-- What pkg/accesslog/sender/sender.go sends, and in which messages.
use skywalking_rover.Common.{
  ℕ, suc, ◌≡◌, refl, sym, ap, subst, ◌∙◌, Bool, true, false, List, [], ◌∷◌, ◌++◌, map, append-nil,
  append_assoc, Option, none, some, if◌then◌else◌, length, arith, All, Bool-cases, inl, inr, ◌⊎◌,
}
use skywalking_rover.AccessLog.Batch.{BatchLogs, ConnectionProtocolLog}
use skywalking_rover.AccessLog.Sender.{
  Message, Sender, Sending, Handled, send_message, send_protocols, send_kernels, send_connection,
  send_connections, send_logs, build_access_log_message, is_silent, handle_logs, count_sent,
  pop_logs,
}
use skywalking_rover.AccessLog.Sender.Messages.{
  protocol_bodies, kernel_bodies, bodies, body, speaking, named, only_first, still_first, nodes,
  named_once, named_once-later, Sends, Sends-refl, Sends-trans,
}

module _ {K P : Type 0} where
  silent-bodies :
      (ks : List K) (ps : List (ConnectionProtocolLog K P))
      → is_silent ks ps ≡ true
      → kernel_bodies ks ++ protocol_bodies ps ≡ []
  unfolding is_silent
  silent-bodies [] [] h = refl
  silent-bodies [] (p ∷ ps) h = cc
  silent-bodies (k ∷ ks) ps h = cc

  speaking-names :
      (c : ℕ) (ks : List K) (ps : List (ConnectionProtocolLog K P))
      → is_silent ks ps ≡ false
      → named_once true c (kernel_bodies ks ++ protocol_bodies ps) ≡ c ∷ []
  unfolding is_silent
  speaking-names c [] [] h = cc
  speaking-names c [] (p ∷ ps) h = refl
  speaking-names c (k ∷ ks) ps h = refl

  Sends-moved :
      (t t' : Sending K P) {u : Sending K P} {bs : List (List K × Option P)} {ns : List ℕ}
      → t'.sent ≡ t.sent
      → t'.first_log ≡ t.first_log
      → Sends t' u bs ns
      → Sends t u bs ns
  Sends-moved t t' {u} {bs} e f h = record {
    messages = h.messages;
    adds = h.adds ∙ ap (λ l. l ++ h.messages) e;
    carries = h.carries;
    names_all = h.names_all;
    describes = h.describes ∙ ap (λ b. only_first b bs) f;
    leaves = h.leaves ∙ ap (λ b. still_first b bs) f;
    no_error = h.no_error;
  }

  subst2 :
      (s u : Sending K P) {bs cs : List (List K × Option P)} {ns ms : List ℕ}
      → bs ≡ cs
      → ns ≡ ms
      → Sends s u bs ns
      → Sends s u cs ms
  subst2 s u e f h = rw (← e, ← f) h

  module _ (fails : List (Message K P) → Message K P → Bool)
      (works : (ms : List (Message K P)) (m : Message K P) → fails ms m ≡ false) where
    send_message-Sends :
        (c : ℕ) (ks : List K) (p : Option P) (s : Sending K P)
        → Sends s
            (send_message fails c ks p s)
            ((ks, p) ∷ [])
            (named_once s.first_connection c ((ks, p) ∷ []))
    unfolding send_message build_access_log_message
    send_message-Sends c ks p s = record {
      messages = build_access_log_message s.first_log s.first_connection c ks p ∷ [];
      adds = refl;
      carries = refl;
      names_all = ground arith;
      describes = refl;
      leaves = refl;
      no_error = works s.sent (build_access_log_message s.first_log s.first_connection c ks p);
    }

    send_protocols-Sends :
        (c : ℕ) (ps : List (ConnectionProtocolLog K P)) (s : Sending K P)
        → s.send_error ≡ false
        → Sends s
            (send_protocols fails c ps s)
            (protocol_bodies ps)
            (named_once s.first_connection c (protocol_bodies ps))
    unfolding send_protocols send_message
    send_protocols-Sends c [] s n = Sends-refl s n
    send_protocols-Sends c (p ∷ ps) s n =
        let one = send_message-Sends c p.kernels (some p.protocol) s in
        let t = send_message fails c p.kernels (some p.protocol) s in
        let later = send_protocols-Sends c ps t one.no_error in
        let names = named_once s.first_connection c (protocol_bodies (p ∷ ps)) in
        subst (λ ns. Sends s (send_protocols fails c ps t) (protocol_bodies (p ∷ ps)) ns)
          (ap (λ l. names ++ l) (named_once-later c (protocol_bodies ps)) ∙ append-nil names)
          (Sends-trans s t (send_protocols fails c ps t) ((p.kernels, some p.protocol) ∷ [])
            (protocol_bodies ps) names (named_once false c (protocol_bodies ps)) one later)

    abbrev names_of : List K → List (ConnectionProtocolLog K P) → ℕ → List ℕ
    names_of ks ps c = named_once true c (kernel_bodies ks ++ protocol_bodies ps)

    send_both-Sends :
        (c : ℕ) (ks : List K) (ps : List (ConnectionProtocolLog K P)) (s : Sending K P)
        → s.send_error ≡ false
        → s.first_connection ≡ true
        → Sends s
            (send_protocols fails c ps (send_kernels fails c ks s))
            (kernel_bodies ks ++ protocol_bodies ps)
            (names_of ks ps c)
    unfolding send_kernels send_message
    send_both-Sends c [] ps s n f =
        subst
          (λ b.
            Sends s (send_protocols fails c ps s) (protocol_bodies ps)
              (named_once b c (protocol_bodies ps)))
          f (send_protocols-Sends c ps s n)
    send_both-Sends c (k ∷ ks) ps s n f =
        let one = send_message-Sends c (k ∷ ks) none s in
        let t = send_message fails c (k ∷ ks) none s in
        let later = send_protocols-Sends c ps t one.no_error in
        subst (λ ns. Sends s (send_protocols fails c ps t) ((k ∷ ks, none) ∷ protocol_bodies ps) ns)
          (ap
              (λ b.
                (if b then c ∷ [] else [])
                ++ named_once {K = K} {P = P} false c (protocol_bodies ps))
              f
            ∙ ap (λ l. c ∷ l) (named_once-later {K = K} {P = P} c (protocol_bodies ps)))
          (Sends-trans s t (send_protocols fails c ps t) ((k ∷ ks, none) ∷ []) (protocol_bodies ps)
            (named_once {K = K} {P = P} s.first_connection c ((k ∷ ks, none) ∷ []))
            (named_once {K = K} {P = P} false c (protocol_bodies ps)) one later)

    send_connections-Sends :
        (es : BatchLogs K P) (s : Sending K P)
        → s.send_error ≡ false
        → s.first_connection ≡ true
        → Sends s (send_connections fails es s) (bodies es) (speaking es)
    unfolding send_connections send_connection speaking
    send_connections-Sends [] s n f = Sends-refl s n
    send_connections-Sends (e ∷ es) s n f =
        let ks = e.logs.kernels in
        let ps = e.logs.protocols in
        let kb = kernel_bodies ks in
        let pb = protocol_bodies ps in
        elim (Bool-cases (is_silent ks ps)) [
          | inl silent ↦
              let empty = silent-bodies ks ps silent in
              rw silent (
                subst (λ bs. Sends s (send_connections fails es s) bs (speaking es))
                  (ap (λ l. l ++ bodies es) (sym empty) ∙ append_assoc kb pb (bodies es))
                  (send_connections-Sends es s n f))
          | inr speaks ↦
              let t = send_connection fails e s in
              let one = send_both-Sends e.connection ks ps s n f in
              let t' : Sending K P = record t { first_connection = true; send_error = false } in
              let later = send_connections-Sends es t' refl refl in
              rw (speaks, one.no_error)
                (subst2 s (send_connections fails es t') (append_assoc kb pb (bodies es))
                  (ap (λ l. l ++ speaking es) (speaking-names e.connection ks ps speaks))
                  (Sends-trans s t (send_connections fails es t') (kb ++ pb) (bodies es)
                    (names_of ks ps e.connection) (speaking es) one
                    (Sends-moved t t' refl refl later)))
        ]

    -- If Collect fails, sendLogs sends nothing and returns an error. If neither it nor a Send fails,
    -- sendLogs returns no error, and its messages carry all the kernel logs and protocol logs of the
    -- batch, connection by connection, a connection's kernel logs before its protocol logs. The
    -- first message describes the node, and no other does. Each connection that has logs is
    -- described once, in the order of the batch, and no other one is.
    pub send_logs-messages :
        (batch : BatchLogs K P)
        → (send_logs fails true batch ≡ ([], true))
          × ((send_logs fails false batch).1 ≡ false)
          × (map body (send_logs fails false batch).0 ≡ bodies batch)
          × (nodes (send_logs fails false batch).0 ≡ only_first true (bodies batch))
          × (named (send_logs fails false batch).0 ≡ speaking batch)
    unfolding send_logs
    send_logs-messages batch =
        let s =
          send_connections-Sends batch
            (record { sent = []; first_log = true; first_connection = true; send_error = false })
            refl refl in
        rw (s.adds) (refl, s.no_error, s.carries, s.describes, s.names_all)

-- The batches that were sent, then the one that failed, then those that stay are the batches that
-- waited, in order.
abbrev pub HandledAll :
    {K P : Type 0} → (BatchLogs K P → Bool) → Sender K P → Option (Handled K P) → Type 0
HandledAll fails g none = ⊥
HandledAll fails g (some h) =
    (h.sent ++ (h.lost ++ h.sender.logs) ≡ g.logs)
    × All (λ b. fails b ≡ false) h.sent
    × All (λ b. fails b ≡ true) h.lost
    × ((length h.lost ≡ 1) ⊎ ((length h.lost ≡ 0) × (h.sender.logs ≡ [])))

module _ {K P : Type 0} (fails : BatchLogs K P → Bool) where
  count_sent-HandledAll :
      (b : BatchLogs K P) (bs : List (BatchLogs K P)) (n : Bool) (r : Option (Handled K P))
      → fails b ≡ false
      → HandledAll fails (record { logs = bs; notified = n }) r
      → HandledAll fails (record { logs = b ∷ bs; notified = n }) (count_sent fails b r)
  count_sent-HandledAll b bs n none f h = h
  count_sent-HandledAll b bs n (some r) f h = (ap (λ l. b ∷ l) h.0, (f, h.1), h.2, h.3)

  handle_logs-list :
      (logs : List (BatchLogs K P)) (n : Bool)
      → HandledAll fails
          (record { logs = logs; notified = n })
          (handle_logs fails (suc (length logs)) (record { logs = logs; notified = n }))
  unfolding handle_logs pop_logs
  handle_logs-list [] n = (refl, tt, tt, inr (refl, refl))
  handle_logs-list (b ∷ bs) n = elim (Bool-cases (fails b)) [
    | inl lost ↦ rw lost (refl, tt, (lost, tt), inl refl)
    | inr sent ↦ rw sent (count_sent-HandledAll b bs n _ sent (handle_logs-list bs n))
  ]

  -- handleLogs comes to an end. It sends the waiting batches from the front of the list until
  -- sendLogs fails for one; that one is lost, and it is the only one. The batches behind it stay in
  -- the list, and if none fails, none stays.
  pub handle_logs-HandledAll :
      (g : Sender K P) → HandledAll fails g (handle_logs fails (suc (length g.logs)) g)
  handle_logs-HandledAll g = handle_logs-list g.logs g.notified
