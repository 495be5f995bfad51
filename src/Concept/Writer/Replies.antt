-- ===== src/Concept/Writer/Replies.antt =====
-- The replies of a writer that sendToWriter takes for a success (concept/service.go).
use aggregate_concept_transf.Common.{ℕ, true, ◌≡◌, refl, ◌∙◌, ◌⊎◌, ◌↔◌, arith, ap}
use aggregate_concept_transf.Text.{Str, codes, contains_text}
use aggregate_concept_transf.Effects.{Res, ok, bind-ok}
use aggregate_concept_transf.World.{ConceptChanges, response, World}
use aggregate_concept_transf.Concept.Writer.{read_changes, check_status, write_result}

-- A status with which a write is a success: 200, 304, and 404 of Elasticsearch, which has no place
-- for the concept's type.
abbrev pub Accepted : Str → ℕ → Type 0
Accepted base_url status =
    (status ≡ 200)
    ⊎ (status ≡ 304)
    ⊎ (status ≡ 404) × (contains_text base_url (codes "elastic") ≡ true)

module _ {R : Type 0} (w : World R) (base_url url uuid : Str) where
  check_status-Accepted :
      (status : ℕ) (changes result : ConceptChanges R)
      → (check_status w base_url url uuid status changes ≡ ok result)
        ↔ Accepted base_url status × (changes ≡ result)
  unfolding check_status
  check_status-Accepted status changes result = ground arith

  -- sendToWriter succeeds on a reply exactly where its status is 200, 304, or 404 from an address
  -- that holds "elastic", and its changes could be read; it then gives those changes.
  pub write_result-Accepted :
      (status : ℕ) (body : Res Str) (result : ConceptChanges R)
      → (write_result w base_url url uuid (response status body) ≡ ok result)
        ↔ Accepted base_url status × (read_changes w base_url status body ≡ ok result)
  unfolding write_result
  write_result-Accepted status body result = (
    (λ h.
        let (changes, read, checked) = bind-ok (read_changes w base_url status body) _ h in
        let (accepted, same) = (check_status-Accepted status changes result).0 checked in
        (accepted, read ∙ ap (λ c. ok c) same)),
    λ (accepted, read). rw read ((check_status-Accepted status result result).1 (accepted, refl)),
  )
