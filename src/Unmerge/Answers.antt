-- ===== src/Unmerge/Answers.antt =====
-- src/engine/contactunmergerequest.cpp: errors, answers and rows, as the steps of a request see them.
use qtcontacts_tracker.Base.{
  ℕ, suc, Bool, true, false, Text, List, [], ◌∷◌, Option, none, some, length, get_elem?, zero, ◌+◌,
  ◌≡◌, ◌⊎◌, inl, inr, refl, arith, ap, sym, ◌∙◌,
}
use qtcontacts_tracker.Request.{
  Request, Error, unspecified_error, is_no_error, report_step, report_loop, SparqlError, no_space,
  unsupported, other, translate_error, report_errors, Answer, fails, answers, run_query,
}
use qtcontacts_tracker.Unmerge.{
  Lookup, lookup_fails, looked_up, Row, Unmerging, read_rows, new_contacts, iris_of,
}

abbrev pub Failed : Unmerging → Type 0
Failed s = is_no_error s.request.last_error ≡ false

report_step-error :
    (e : SparqlError) (last : Error)
    → is_no_error last ≡ false
    → is_no_error (report_step last (translate_error e)) ≡ false
unfolding translate_error
report_step-error no_space last h = refl
report_step-error unsupported last h = ground (arith, h)
report_step-error other last h = ground (arith, h)

report_errors-error :
    (last : Error) (es : List SparqlError)
    → is_no_error last ≡ false
    → is_no_error (report_loop last es) ≡ false
report_errors-error last [] h = h
report_errors-error last (e ∷ es) h =
    report_errors-error (report_step last (translate_error e)) es (report_step-error e last h)

pub reported :
    (r : Request) (es : List SparqlError) → is_no_error ((report_errors r es).last_error) ≡ false
unfolding report_errors
reported r es = report_errors-error unspecified_error es refl

pub query_failed :
    {A : Type 0} (r : Request) (valid : Bool) (a : Answer A)
    → (run_query r valid a).1 ≡ none
    → is_no_error ((run_query r valid a).0.last_error) ≡ false
unfolding run_query translate_error
query_failed r false a h = refl
query_failed r true (fails no_space) h = refl
query_failed r true (fails unsupported) h = refl
query_failed r true (fails other) h = refl
query_failed r true (answers x) h = absurd (ground (arith, h))

pub query_cases :
    {A : Type 0} (r : Request) (valid : Bool) (a : Answer A) (x : A)
    → (run_query r valid a).1 ≡ some x
    → (valid ≡ true) × (a ≡ answers x) × ((run_query r valid a).0 ≡ r)
unfolding run_query
query_cases r false a x h = absurd (ground (arith, h))
query_cases r true (fails e) x h = absurd (ground (arith, h))
query_cases r true (answers y) x h = (refl, ground (arith, h), refl)

pub query_answered :
    {A : Type 0} (r : Request) (valid : Bool) (a : Answer A) (x : A)
    → valid ≡ true
    → a ≡ answers x
    → run_query r valid a ≡ (r, some x)
unfolding run_query
query_answered r valid a x h h' = rw (h, h') refl

pub length-new_contacts :
    (uuid_iri : ℕ → Text) (i : ℕ) (accounts : List Text)
    → length (iris_of (new_contacts uuid_iri i accounts)) ≡ length accounts
unfolding new_contacts
length-new_contacts uuid_iri i [] = refl
length-new_contacts uuid_iri i (a ∷ accounts) =
    ap suc (length-new_contacts uuid_iri (suc i) accounts)

pub read_rows-iris :
    (rdf_type : Text) (rows : List Row) (s : Unmerging)
    → ((read_rows rdf_type rows s).unmerged_contact_iris ≡ s.unmerged_contact_iris)
      × ((read_rows rdf_type rows s).sent ≡ s.sent)
unfolding read_rows
read_rows-iris rdf_type [] s = (refl, refl)
read_rows-iris rdf_type (row ∷ rows) s = read_rows-iris rdf_type rows _

abbrev pub placed : (ℕ → Text) → ℕ → Option Text → Option (Text × Text)
placed uuid_iri i none = none
placed uuid_iri i (some account) = some (uuid_iri i, account)

-- The contact that is made for an account stands at the account's position.
pub get_elem-new_contacts :
    (uuid_iri : ℕ → Text) (i j : ℕ) (accounts : List Text)
    → get_elem? (new_contacts uuid_iri i accounts) j
      ≡ placed uuid_iri (i + j) (get_elem? accounts j)
unfolding new_contacts
get_elem-new_contacts uuid_iri i j [] = refl
get_elem-new_contacts uuid_iri i zero (a ∷ accounts) = ground arith
get_elem-new_contacts uuid_iri i (suc j) (a ∷ accounts) =
    let shift : i + suc j ≡ suc i + j = omega arith in
    get_elem-new_contacts uuid_iri (suc i) j accounts
    ∙ ap (λ (n : ℕ). placed uuid_iri n (get_elem? accounts j)) (sym shift)

pub read_rows-request :
    (rdf_type : Text) (rows : List Row) (s : Unmerging)
    → (read_rows rdf_type rows s).request ≡ s.request
unfolding read_rows
read_rows-request rdf_type [] s = refl
read_rows-request rdf_type (row ∷ rows) s = read_rows-request rdf_type rows _

pub Lookup-cases :
    {A : Type 0} (l : Lookup A)
    → ((es : List SparqlError) × (l ≡ lookup_fails es)) ⊎ ((a : A) × (l ≡ looked_up a))
Lookup-cases (lookup_fails es) = inl (es, refl)
Lookup-cases (looked_up a) = inr (a, refl)
