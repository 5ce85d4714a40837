-- ===== src/Kafka/Settings.antt =====
-- plugins/reporter/kafka/kafka.go: what `Init` accepts.
use mathlib.Core.Path.{subst}
use otus.Text.{ℤ, codes}
use otus.Base.{
  ◌≡◌, Option, refl, Bytes, ◌≢◌, [], ap, ◌⊎◌, ◌∷◌, if◌then◌else◌, Bool, true, ◌=?◌, Dict, inl, ◌++◌,
  inr, ◌||◌, some, list_eq, nat_eq, none, if_intro, arith, not,
}
use otus.Output.{OutputPacket}
use otus.Kafka.{
  Read, read, refuse, and_then, read_topics, read_serialization, resolve_topic, serialize_value,
  KafkaConfig, protocol_of, init_kafka, Value, read_options, KafkaReporter, InitError, configure,
  is_compression,
}

and_then_intro {ℓ} :
    {A B : Type 0} (P : Read B → Type ℓ) (x : Read A) (f : A → Read B)
    → ((e : InitError) → P (refuse e))
    → ((a : A) → x ≡ read a → P (f a))
    → P (and_then x f)
unfolding and_then
and_then_intro P (read a) f e r = r a refl
and_then_intro P (refuse i) f e r = e i

abbrev unread : {A : Type 0} → A → Read A → A
unread d (read a) = a
unread d (refuse e) = d

read-injective : {A : Type 0} (a b : A) → read a ≡ read b → a ≡ b
read-injective a b h = ap (unread a) h

-- A topic or a prefix, not both.
abbrev HasOne : Bytes × Bytes → Type 0
HasOne (topic, prefix) = (topic ≢ []) × (prefix ≡ []) ⊎ (topic ≡ []) × (prefix ≢ [])

read_topics-HasOne :
    (topic prefix : Bytes) (q : Bytes × Bytes) → read_topics topic prefix ≡ read q → HasOne q
unfolding read_topics
read_topics-HasOne [] [] q h = absurd (cc)
read_topics-HasOne (c ∷ topic) [] q h =
    subst HasOne (read-injective (c ∷ topic, []) q h) (inl ((λ e. cc), refl))
read_topics-HasOne [] (c ∷ prefix) q h =
    subst HasOne (read-injective ([], c ∷ prefix) q h) (inr (refl, (λ e. cc)))
read_topics-HasOne (c ∷ topic) (d ∷ prefix) q h = absurd (cc)

topic-nonempty :
    (topic prefix type : Bytes)
    → HasOne (topic, prefix)
    → (if prefix =? [] then topic else prefix ++ codes "-" ++ type) ≢ []
topic-nonempty topic [] type (inl (t, e)) = t
topic-nonempty topic [] type (inr (e, p)) = absurd (p refl)
topic-nonempty topic (c ∷ prefix) type one = λ e. cc

abbrev is_serialization : Bytes → Bool
is_serialization s = (s =? codes "json") || (s =? []) || (s =? codes "binary")

widen :
    (t : Bytes) → ((t =? codes "json") || (t =? codes "binary")) ≡ true → is_serialization t ≡ true
widen t h = ground arith

read_serialization-known :
    (o : Option Bytes) (s : Bytes) → read_serialization o ≡ read s → is_serialization s ≡ true
unfolding read_serialization
read_serialization-known none s =
    λ h. subst (λ s. is_serialization s ≡ true) (read-injective (codes "json") s h) refl
read_serialization-known (some t) s =
    if_intro (λ (r : Read Bytes). r ≡ read s → is_serialization s ≡ true)
      ((t =? codes "json") || (t =? codes "binary"))
      (λ known h. subst (λ s. is_serialization s ≡ true) (read-injective t s h) (widen t known))
      (λ _ h. absurd (cc))

module _ (marshal : OutputPacket → Option Bytes) (is_valid : KafkaConfig → Bool)
    (parse_duration : Bytes → Option ℤ) where
  -- Every packet has a topic, and a value unless it cannot be marshalled.
  abbrev pub IsSettled : KafkaConfig → Type 0
  IsSettled cfg =
      (p : OutputPacket) → (resolve_topic cfg p ≢ []) × (serialize_value marshal cfg p ≡ marshal p)

  settled :
      (cfg : KafkaConfig)
      → HasOne (cfg.topic, cfg.topic_prefix)
      → is_serialization cfg.serialization ≡ true
      → IsSettled cfg
  unfolding resolve_topic serialize_value
  settled cfg one known p = (
    topic-nonempty cfg.topic cfg.topic_prefix (protocol_of (codes p.payload_type)) one,
    rw (known) refl,
  )

  unfoldable IfRead : Read KafkaConfig → Type 0
  IfRead (read cfg) = IsSettled cfg
  IfRead (refuse e) = Unit

  IfRead-refuse : (e : InitError) → IfRead (refuse e)
  unfolding IfRead
  IfRead-refuse e = tt

  IfRead-read : (cfg : KafkaConfig) → IsSettled cfg → IfRead (read cfg)
  unfolding IfRead
  IfRead-read cfg s = s

  read_options-IfRead : (options : Dict Bytes Value) → IfRead (read_options parse_duration options)
  unfolding read_options
  read_options-IfRead options = and_then_intro IfRead _ _ IfRead-refuse (λ brokers _.
      and_then_intro IfRead _ _ IfRead-refuse (λ topics one.
        and_then_intro IfRead _ _ IfRead-refuse (λ timeout _.
          and_then_intro IfRead _ _ IfRead-refuse (λ serialization known. IfRead-read _ (
            settled _ (read_topics-HasOne _ _ topics one)
              (read_serialization-known _ serialization known))))))

  abbrev pub IsReady : KafkaReporter → Type 0
  IsReady r = (r.has_writer ≡ true) × IsSettled r.config

  configure-IsReady :
      (r : KafkaReporter) (c : Read KafkaConfig)
      → IfRead c
      → (configure is_valid parse_duration r c).1 ≡ none
      → IsReady (configure is_valid parse_duration r c).0
  unfolding IfRead
  configure-IsReady r (refuse e) s = λ h. absurd (cc)
  configure-IsReady r (read cfg) s =
      let P : KafkaReporter × Option InitError → Type 0 = λ q. q.1 ≡ none → IsReady q.0 in
      if_intro P (not (is_compression cfg.compression)) (λ _ h. absurd (cc))
        (λ _. if_intro P (is_valid cfg) (λ _ h. (refl, s)) (λ _ h. absurd (cc)))

  -- A reporter that `Init` accepts has a writer, names a nonempty topic for every packet, and
  -- never refuses a packet because of the configured serialization, whatever options it was given.
  pub init_kafka-IsReady :
      (options : Option (Dict Bytes Value)) (r : KafkaReporter)
      → (init_kafka is_valid parse_duration options r).1 ≡ none
      → IsReady (init_kafka is_valid parse_duration options r).0
  unfolding init_kafka
  init_kafka-IsReady none r h = absurd (cc)
  init_kafka-IsReady (some options) r h =
      configure-IsReady r (read_options parse_duration options) (read_options-IfRead options) h
