-- ===== src/Command/Kafka/Filter.antt =====
-- internal/command/kafka.go: what the consumer makes of a sequence of messages.
use otus.Text.{ℤ, codes, pos, negsuc}
use mathlib.Core.List.{append_assoc, append-nil}
use mathlib.Core.Path.{subst}
use otus.Config.{TaskConfig}
use otus.Task.Assembly.{Plugins}
use otus.Task.Store.{TaskStore}
use otus.Command.{Command, Response, Handler, handle_command, difference}
use otus.Command.Kafka.{
  KafkaCommand, KafkaCommandConsumer, KafkaResponse, consume, is_target, Fetched, to_command,
  fetched, fetch_failed, is_stale, context_done, Progress, consume_one, answer_command,
  process_message, add_response, add_progress, dispatch_decoded, kafka_response, less_int,
}
use otus.Base.{
  Bytes, List, ℕ, Option, Bool, ◌∷◌, [], ◌≡◌, some, true, none, if◌then◌else◌, refl, false, ◌=?◌,
  list_eq, nat_eq, if_intro, ◌&&◌, not, ◌++◌, ap, ◌∙◌, sym, arith, ◌/◌, ◌||◌, ◌==◌, leb, ◌+◌, suc,
}
use otus.Command.Answers.{handle_command-IsAnswer}

module _ (S : TaskStore) (decode_config : Bytes → Option TaskConfig)
    (decode_id : Bytes → Option Bytes) (parse_duration : Bytes → Option ℕ) (p : Plugins)
    (reload : Option Bool) where
  abbrev run : Command → ℕ → Handler S → Handler S × Response
  run = handle_command S decode_config decode_id parse_duration p reload

  -- The handler counts in seconds.
  abbrev run_at : KafkaCommand → ℕ → Handler S → Handler S × Response
  run_at k now =
      run (record { method = k.command; params = k.payload; id = k.request_id }) (now / 1000000000)

  abbrev any_of : Bytes → List Bytes → Bool
  any_of x [] = false
  any_of x (y ∷ ys) = (x =? y) || any_of x ys

  -- `now` is at most `ttl` after the time `sent`; a negative `ttl` asks for more.
  abbrev in_time : ℤ → ℕ → ℕ → Bool
  in_time (pos ttl) now sent = leb now (sent + ttl)
  in_time (negsuc ttl) now sent = leb (now + suc ttl) sent

  -- For every node or for this one, and with no time or in time.
  abbrev pub is_wanted : KafkaCommandConsumer → ℕ → KafkaCommand → Bool
  is_wanted c now k =
      any_of k.target ([] ∷ codes "*" ∷ c.hostname ∷ [])
      && (k.timestamp == 0 || in_time c.ttl now k.timestamp)

  less_int-in_time :
      (ttl : ℤ) (now sent : ℕ) → less_int ttl (difference now sent) ≡ not (in_time ttl now sent)
  less_int-in_time (pos ttl) now sent =
      if_intro (λ (d : ℤ). less_int (pos ttl) d ≡ not (leb now (sent + ttl))) (leb sent now)
        (λ after. ground arith) (λ before. ground arith)
  less_int-in_time (negsuc ttl) now sent =
      if_intro (λ (d : ℤ). less_int (negsuc ttl) d ≡ not (leb (now + suc ttl) sent)) (leb sent now)
        (λ after. ground arith) (λ before. ground arith)

  is_stale-in_time :
      (c : KafkaCommandConsumer) (now : ℕ) (k : KafkaCommand)
      → is_stale c now k ≡ not (k.timestamp == 0 || in_time c.ttl now k.timestamp)
  is_stale-in_time c now k = ground (arith, less_int-in_time c.ttl now k.timestamp)

  is_target-any_of :
      (c : KafkaCommandConsumer) (k : KafkaCommand)
      → is_target c k ≡ any_of k.target ([] ∷ codes "*" ∷ c.hostname ∷ [])
  is_target-any_of c k = ground arith

  -- The answer to a command: what the handler says, under the id of the request and this node's name.
  abbrev reply : KafkaCommandConsumer → KafkaCommand → ℕ → Handler S → KafkaResponse
  reply c k now h = record {
    version = codes "v1";
    source = c.hostname;
    command = k.command;
    request_id = k.request_id;
    timestamp = now;
    result = (run_at k now h).1.result;
    error = (run_at k now h).1.error;
  }

  kafka_response-reply :
      (c : KafkaCommandConsumer) (k : KafkaCommand) (now : ℕ) (h : Handler S)
      → kafka_response c k.command now (run_at k now h).1 ≡ reply c k now h
  unfolding kafka_response
  kafka_response-reply c k now h =
      ap (λ i. record (reply c k now h) { request_id = i })
        (handle_command-IsAnswer S decode_config decode_id parse_duration p reload (to_command k)
          (now / 1000000000) h).0

  module _ (decode : Bytes → Option KafkaCommand) where
    abbrev wanted : KafkaCommandConsumer → ℕ → Option KafkaCommand → Option KafkaCommand
    wanted c now none = none
    wanted c now (some k) = if is_wanted c now k then some k else none

    abbrev put : Option KafkaCommand → ℕ → List (KafkaCommand × ℕ) → List (KafkaCommand × ℕ)
    put none now ks = ks
    put (some k) now ks = (k, now) ∷ ks

    -- The readable commands that are wanted, up to the end of the context.
    abbrev pub accepted :
        KafkaCommandConsumer → List (Fetched S decode run × ℕ) → List (KafkaCommand × ℕ)
    accepted c [] = []
    accepted c ((fetched value commits, now) ∷ rest) =
        put (wanted c now (decode value)) now (accepted c rest)
    accepted c ((fetch_failed, now) ∷ rest) = accepted c rest
    accepted c ((context_done, now) ∷ rest) = []

    abbrev pub run_all : List (KafkaCommand × ℕ) → Handler S → Handler S
    run_all [] h = h
    run_all ((k, now) ∷ ks) h = run_all ks (run_at k now h).0

    -- The answers to the commands that have an id, if there is a writer.
    abbrev pub replies :
        KafkaCommandConsumer → List (KafkaCommand × ℕ) → Handler S → List KafkaResponse
    replies c [] h = []
    replies c ((k, now) ∷ ks) h =
        let rest = replies c ks (run_at k now h).0 in
        if c.has_writer && not (k.request_id =? []) then reply c k now h ∷ rest else rest

    -- The messages that were fetched, but for those that could not be committed.
    abbrev pub read_before : List (Fetched S decode run × ℕ) → List Bytes
    read_before [] = []
    read_before ((fetched value commits, now) ∷ rest) =
        let others = read_before rest in if commits then value ∷ others else others
    read_before ((fetch_failed, now) ∷ rest) = read_before rest
    read_before ((context_done, now) ∷ rest) = []

    abbrev Log : Type 0
    Log = Progress S decode run

    -- What happened between two states.
    pub record IsServed (c : KafkaCommandConsumer) (ks : List (KafkaCommand × ℕ))
        (values : List Bytes) (g g' : Log) : Type 0 where
      pub handled : g'.handler ≡ run_all ks g.handler
      pub answered : g'.responses ≡ g.responses ++ replies c ks g.handler
      pub committed_all : g'.committed ≡ g.committed ++ values

    abbrev advance : KafkaCommandConsumer → Option KafkaCommand → ℕ → Bytes → Bool → Log → Log
    advance c none now value commits g = record g {
      committed = if commits then g.committed ++ value ∷ [] else g.committed;
    }
    advance c (some k) now value commits g =
        add_progress S decode run value commits
          (answer_command S decode run c k now (run_at k now g.handler)) g

    dispatch_decoded-advance :
        (c : KafkaCommandConsumer) (o : Option KafkaCommand) (now : ℕ) (value : Bytes)
        (commits : Bool) (g : Log)
        → add_progress S decode run value commits
            (dispatch_decoded S decode run c o now g.handler)
            g
          ≡ advance c (wanted c now o) now value commits g
    dispatch_decoded-advance c none now value commits g = refl
    dispatch_decoded-advance c (some k) now value commits g =
        rw (is_stale-in_time c now k, is_target-any_of c k)
          (pick (any_of k.target ([] ∷ codes "*" ∷ c.hostname ∷ []))
            (k.timestamp == 0 || in_time c.ttl now k.timestamp))
      where
        pick :
            (target timely : Bool)
            → add_progress S decode run value commits
                (if not target
                  then (g.handler, none, true)
                  else if not timely
                  then (g.handler, none, true)
                  else answer_command S decode run c k now (run_at k now g.handler))
                g
              ≡ advance c (if target && timely then some k else none) now value commits g
        pick false timely = refl
        pick true false = refl
        pick true true = refl

    consume_one-advance :
        (c : KafkaCommandConsumer) (now : ℕ) (value : Bytes) (commits : Bool) (g : Log)
        → consume_one S decode run c now value commits g
          ≡ advance c (wanted c now (decode value)) now value commits g
    unfolding consume_one process_message
    consume_one-advance c now value commits g =
        dispatch_decoded-advance c (decode value) now value commits g

    add_response-replies :
        (writes : Bool) (x y : KafkaResponse) (rs rest : List KafkaResponse)
        → x ≡ y
        → add_response S decode run (if writes then some x else none) rs ++ rest
          ≡ rs ++ (if writes then y ∷ rest else rest)
    add_response-replies false x y rs rest e = refl
    add_response-replies true x y rs rest e =
        append_assoc rs (x ∷ []) rest ∙ ap (λ z. rs ++ z ∷ rest) e

    committed-append :
        (commits : Bool) (value : Bytes) (done values : List Bytes)
        → (if commits then done ++ value ∷ [] else done) ++ values
          ≡ done ++ (if commits then value ∷ values else values)
    committed-append false value done values = refl
    committed-append true value done values = append_assoc done (value ∷ []) values

    advance-IsServed :
        (c : KafkaCommandConsumer) (o : Option KafkaCommand) (now : ℕ) (value : Bytes)
        (commits : Bool) (ks : List (KafkaCommand × ℕ)) (values : List Bytes) (g g' : Log)
        → IsServed c ks values (advance c o now value commits g) g'
        → IsServed c (put o now ks) (if commits then value ∷ values else values) g g'
    advance-IsServed c none now value commits ks values g g' s = record {
      handled = s.handled;
      answered = s.answered;
      committed_all = s.committed_all ∙ committed-append commits value g.committed values;
    }
    advance-IsServed c (some k) now value commits ks values g g' s = record {
      handled = s.handled;
      answered =
          s.answered
          ∙ add_response-replies (c.has_writer && not (k.request_id =? [])) _ _ g.responses
              (replies c ks (run_at k now g.handler).0) (kafka_response-reply c k now g.handler);
      committed_all = s.committed_all ∙ committed-append commits value g.committed values;
    }

    IsServed-refl : (c : KafkaCommandConsumer) (g : Log) → IsServed c [] [] g g
    IsServed-refl c g = record {
      handled = refl;
      answered = sym (append-nil g.responses);
      committed_all = sym (append-nil g.committed);
    }

    -- The consumer runs the readable commands that name every node or this one, and that carry no time
    -- or one no longer ago than the TTL, in the order of arrival, up to the end of its context.
    -- With a writer it answers each of them that has an id, in the same order, with the result or
    -- the error of the handler. It commits every message that it fetched but for those where the
    -- client fails to.
    pub consume-IsServed :
        (c : KafkaCommandConsumer) (events : List (Fetched S decode run × ℕ)) (g : Log)
        → IsServed c (accepted c events) (read_before events) g (consume S decode run c events g)
    unfolding consume
    consume-IsServed c [] g = IsServed-refl c g
    consume-IsServed c ((fetched value commits, now) ∷ rest) g =
        advance-IsServed c (wanted c now (decode value)) now value commits (accepted c rest)
          (read_before rest) g _
          (subst
            (λ g1.
              IsServed c (accepted c rest) (read_before rest) g1
                (consume S decode run c rest (consume_one S decode run c now value commits g)))
            (consume_one-advance c now value commits g)
            (consume-IsServed c rest (consume_one S decode run c now value commits g)))
    consume-IsServed c ((fetch_failed, now) ∷ rest) g = consume-IsServed c rest g
    consume-IsServed c ((context_done, now) ∷ rest) g = IsServed-refl c g
