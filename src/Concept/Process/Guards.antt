-- ===== src/Concept/Process/Guards.antt =====
-- When ProcessMessage cannot fail in a slice, when it writes nothing, and what the address of the
-- Neo4j writer decides (concept/service.go).
use aggregate_concept_transf.Common.{
  [], ◌∷◌, ◌-◌, ◌≤◌, false, length, length-drop, drop, Option, none, some, ◌≡◌, refl, ap, sym,
  subst, ◌∙◌, arith,
}
use aggregate_concept_transf.Text.{Str, codes, contains_text}
use aggregate_concept_transf.Effects.{Res, ok, err, panic, Log, M, lift, ok-injective, >>=-ok}
use aggregate_concept_transf.World.{
  CanonicalConcept, ConceptChanges, HttpReply, failed, response, World,
}
use aggregate_concept_transf.Concept.Identifiers.RoundTrip.{extract-IsUuid}
use aggregate_concept_transf.Concept.Service.{AggregateService, with_deadline, by_arm}
use aggregate_concept_transf.Concept.Gather.{get_concorded, get_concorded_concept}
use aggregate_concept_transf.Concept.Gather.Stages.{get_concorded-Stages}
use aggregate_concept_transf.Concept.Paths.{resolve_concept_type}
use aggregate_concept_transf.Concept.Writer.{
  send_to_writer, write_result, read_changes, check_status, no_changes, create_write_request,
  write_url,
}
use aggregate_concept_transf.Concept.Process.{last_uuid, write, write_to_neo, process_message}
use aggregate_concept_transf.Concept.Process.Plan.{put, then_plan, Follows}
use aggregate_concept_transf.Concept.Process.Update.{change_plan, process_message-Follows}

by_arm-ok {ℓ} : {A : Type ℓ} (arm : Option Str) (r : Res A) {a : A} → by_arm arm r ≡ ok a → r ≡ ok a
by_arm-ok none r h = h
by_arm-ok (some e) (ok a) h = cc
by_arm-ok (some e) (err e') h = cc
by_arm-ok (some e) panic h = cc

-- A select that ends without an error ended in the goroutine's arm.
pub with_deadline-ok {ℓ} :
    {R : Type 0} {A : Type ℓ} (w : World R) (m : M A) (log : Log) {a : A}
    → (with_deadline w m log).0 ≡ ok a
    → (m log).0 ≡ ok a
unfolding with_deadline
with_deadline-ok w m log h = by_arm-ok (w.cancelled (m log).1) (m log).0 h

last_uuid-long :
    (uuid : Str) → 36 ≤ length uuid → (u : Str) × (last_uuid uuid ≡ ok u) × (length u ≡ 36)
unfolding last_uuid
last_uuid-long uuid h =
    (drop (length uuid - 36) uuid, ground arith, omega (arith, length-drop (length uuid - 36) uuid))

-- The slice of ProcessMessage that takes the last 36 bytes of the key does not panic where the
-- concept could be read, and gives 36 bytes.
pub last_uuid-read :
    {R : Type 0} (w : World R) (s : AggregateService) (uuid bookmark : Str) (log : Log)
    (r : CanonicalConcept R × Str)
    → (get_concorded_concept w s uuid bookmark log).0 ≡ ok r
    → (u : Str) × (last_uuid uuid ≡ ok u) × (length u ≡ 36)
unfolding get_concorded_concept
last_uuid-read w s uuid bookmark log r h =
    let read = with_deadline-ok w (get_concorded w s uuid bookmark) log h in
    let stages = get_concorded-Stages w s uuid bookmark log r read in
    last_uuid-long uuid (extract-IsUuid uuid stages.extracted).1

module _ {R : Type 0} (w : World R) (s : AggregateService) where
  write_result-unread :
      (base_url url uuid : Str) (reply : HttpReply) (c : ConceptChanges R)
      → contains_text base_url (codes "neo4j") ≡ false
      → write_result w base_url url uuid reply ≡ ok c
      → c ≡ no_changes w
  unfolding write_result read_changes check_status
  write_result-unread base_url url uuid (failed e) c h k = cc
  write_result-unread base_url url uuid (response status body) c h k = ground arith

  write-unread :
      (address : Str) (concept : CanonicalConcept R) (tid : Str) (log : Log) (c : ConceptChanges R)
      → contains_text address (codes "neo4j") ≡ false
      → (write w s address concept tid log).0 ≡ ok c
      → c ≡ no_changes w
  unfolding write send_to_writer
  write-unread address concept tid log c h k =
      let (body, _, k1, _) = >>=-ok (lift (w.marshal_concept concept)) _ log k in
      let (req, _, k2, _) =
        >>=-ok (lift (create_write_request w (url concept) body tid)) _ log k1 in
      write_result-unread address (url concept) concept.pref_uuid (w.http_do log req) c h k2
    where
      url : CanonicalConcept R → Str
      url concept = write_url address (resolve_concept_type concept.concept_type) concept.pref_uuid

  -- The JSON of an empty ConceptChanges is read back as one.
  abbrev pub EmptyRoundTrip : Type 0
  EmptyRoundTrip =
      (raw : Str)
      → w.marshal_changes (no_changes w) ≡ ok raw
      → w.unmarshal_changes raw ≡ ok (no_changes w)

  write_to_neo-unchanged :
      (concept : CanonicalConcept R) (tid : Str) (log : Log)
      (c : ConceptChanges R × ConceptChanges R)
      → EmptyRoundTrip
      → contains_text s.neo_writer_address (codes "neo4j") ≡ false
      → (write_to_neo w s concept tid log).0 ≡ ok c
      → c.1 ≡ no_changes w
  unfolding write_to_neo
  write_to_neo-unchanged concept tid log c round_trip h k =
      let neo = write w s s.neo_writer_address concept tid in
      let (changes, k0, k1, _) = >>=-ok neo _ log k in
      let empty = write-unread s.neo_writer_address concept tid log changes h k0 in
      let (raw, m, k2, _) = >>=-ok (lift (w.marshal_changes changes)) _ (neo log).1 k1 in
      let (update, u, k3, _) = >>=-ok (lift (w.unmarshal_changes raw)) _ (neo log).1 k2 in
      let back = round_trip raw (rw empty at m) in
      ap (λ p. p.1) (sym (ok-injective k3)) ∙ ok-injective (sym u ∙ back)

  no_plan :
      (concept : CanonicalConcept R) (tid : Str)
      (written : Res (ConceptChanges R × ConceptChanges R))
      → ((c : ConceptChanges R × ConceptChanges R) → written ≡ ok c → c.1 ≡ no_changes w)
      → then_plan w s (change_plan w s concept tid) written ≡ []
  no_plan concept tid (ok c) h = rw (h c refl) refl
  no_plan concept tid (err e) h = refl
  no_plan concept tid panic h = refl

  -- With a Neo4j writer whose address does not hold "neo4j", ProcessMessage, out of read-only
  -- mode and on a concept that could be read, makes no call after the reads but at most the write
  -- to Neo4j: no purge, no write to Elasticsearch, no event, no notification. (The JSON of empty
  -- changes is assumed to be read back as empty changes.)
  pub process_message-unnamed :
      (uuid bookmark : Str) (log log1 : Log) (concept : CanonicalConcept R) (tid : Str)
      → EmptyRoundTrip
      → contains_text s.neo_writer_address (codes "neo4j") ≡ false
      → s.read_only ≡ false
      → get_concorded_concept w s uuid bookmark log ≡ (ok (concept, tid), log1)
      → Follows w s
          (put s.neo_writer_address concept tid ∷ [])
          log1
          (process_message w s uuid bookmark log)
  process_message-unnamed uuid bookmark log log1 concept tid round_trip h writes read =
      subst
        (λ plan.
          Follows w s (put s.neo_writer_address concept tid ∷ plan) log1
            (process_message w s uuid bookmark log))
        (no_plan concept tid (write_to_neo w s concept tid log1).0
          (λ c. write_to_neo-unchanged concept tid log1 c round_trip h))
        (process_message-Follows w s uuid bookmark log log1 concept tid writes read)
