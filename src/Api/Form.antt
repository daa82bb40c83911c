-- ===== src/Api/Form.antt =====
-- What the loop over the parts of `upload` leaves in the object store, in
-- api/internal/server/handlers.go.
use transcodex.Base.{
  ◌≡◌, refl, inl, inr, Bool, true, false, not, ◌||◌, Option, none, some, List, [], ◌∷◌,
  if◌then◌else◌, arith, Bool-cases, Option-cases,
}
use transcodex.Base.Int.{ℤ}
use transcodex.Base.Text.{same_text}
use transcodex.Db.Schema.{Text}
use transcodex.Queue.{validate_priority}
use transcodex.Api.{Config}
use transcodex.Api.Upload.{
  FilePart, Part, priority_part, file_part, other_part, malformed_part, Stored, stored, refused,
  store_upload, Form, Parsed, parsed, rejected, read_parts, is_video, is_too_large, upload_key,
  reply_of, Reply, store_failed, invalid_video, too_large, remove_object, remove_stored,
  read_priority,
}

same_text_refl : (t : Text) → same_text t t ≡ true
same_text_refl [] = refl
same_text_refl (x ∷ xs) = ground (arith, same_text_refl xs)

abbrev pub has_object : Text → List Text → Bool
has_object key [] = false
has_object key (k ∷ ks) = same_text k key || has_object key ks

abbrev pub Present : Form → List Text → Type 0
Present form objects = (key : Text) → form.input_file ≡ some key → has_object key objects ≡ true

abbrev pub Good : Parsed × List Text → Type 0
Good (parsed form, objects) = Present form objects
Good (rejected Reply.accepted, objects) = ⊥
Good (rejected _, objects) = Unit {0}

abbrev StoredGood : Stored × List Text → Type 0
StoredGood (stored key, objects) = has_object key objects ≡ true
StoredGood (refused _, objects) = Unit {0}

store_upload-StoredGood :
    (c : Config) (job : Text) (f : FilePart) (objects : List Text)
    → StoredGood (store_upload c job f objects)
unfolding store_upload
store_upload-StoredGood c job f objects =
    go (not f.is_readable) (not (is_video f)) (is_too_large c f) (not f.is_stored)
  where
    key : Text
    key = upload_key c job f

    go :
        (unreadable other large unstored : Bool)
        → StoredGood (
            if unreadable
            then (refused store_failed, objects)
            else if other
            then (refused invalid_video, objects)
            else if large
            then (refused too_large, remove_object key objects)
            else if unstored
            then (refused store_failed, remove_object key objects)
            else (stored key, key ∷ objects))
    go true other large unstored = tt
    go false true large unstored = tt
    go false false true unstored = tt
    go false false false true = tt
    go false false false false = ground (arith, same_text_refl key)

-- A part that holds a file leads on only if the file has been stored.
file-Good :
    (c : Config) (job : Text) (ps : List Part) (form : Form) (out : Stored × List Text)
    → StoredGood out
    → ((next : Form) (held : List Text) → Present next held → Good (read_parts c job ps next held))
    → Good (
        let step : Parsed × List Text = elim out.0 [
          | stored key ↦ read_parts c job ps (record form { input_file = some key }) out.1
          | refused e ↦ (rejected (reply_of e), out.1)
        ] in
        step)
file-Good c job ps form (stored key, held) h on =
    on (record form { input_file = some key }) held (λ k e. rw (same key k e) at h)
  where
    same : (k l : Text) → some k ≡ some l → k ≡ l
    same k l e = cc
file-Good c job ps form (refused too_large, held) h on = tt
file-Good c job ps form (refused invalid_video, held) h on = tt
file-Good c job ps form (refused store_failed, held) h on = tt

priority-Good :
    (form : Form) (objects : List Text) (on : ℤ → Parsed × List Text) (o : Option ℤ)
    → ((p : ℤ) → Good (on p))
    → Good (
        let step : Parsed × List Text = elim o [
          | none ↦ (rejected Reply.bad_request, remove_stored form.input_file objects)
          | some p ↦
              if validate_priority p
              then on p
              else (rejected Reply.bad_request, remove_stored form.input_file objects)
        ] in
        step)
priority-Good form objects on none h = tt
priority-Good form objects on (some p) h = elim (Bool-cases (validate_priority p)) [
  | inl valid ↦ rw valid (h p)
  | inr invalid ↦ rw invalid tt
]

pub read_parts-Good :
    (c : Config) (job : Text) (ps : List Part) (form : Form) (objects : List Text)
    → Present form objects
    → Good (read_parts c job ps form objects)
unfolding read_parts
read_parts-Good c job [] form objects h = h
read_parts-Good c job (malformed_part ∷ ps) form objects h = tt
read_parts-Good c job (other_part ∷ ps) form objects h = read_parts-Good c job ps form objects h
read_parts-Good c job (priority_part body ∷ ps) form objects h =
    priority-Good form objects (λ p. read_parts c job ps (record form { priority = p }) objects)
      (read_priority body) (λ p. read_parts-Good c job ps (record form { priority = p }) objects h)
read_parts-Good c job (file_part f ∷ ps) form objects h = elim (Option-cases form.input_file) [
  | inl e ↦ rw e (
      file-Good c job ps form (store_upload c job f objects)
        (store_upload-StoredGood c job f objects) (λ next held. read_parts-Good c job ps next held))
  | inr (key, e) ↦ rw e tt
]
