-- ===== src/Api/Upload.antt =====
-- `upload` and `storeUpload` of api/internal/server/handlers.go. A multipart form is the list of its
-- parts, each with what the multipart and MIME packages and the object store report of it; the
-- object store is the list of the keys that it holds.
use transcodex.Base.{
  ℕ, Bool, true, false, ◌&&◌, ◌||◌, Option, none, some, List, [], ◌∷◌, ◌++◌, ◌==◌, ltb, leb, zero,
  suc, ◌-◌, if◌then◌else◌, filter, not,
}
use transcodex.Base.Int.{ℤ, pos, ltb_ℤ}
use transcodex.Base.Text.{codes, same_text, atoi}
use transcodex.Db.Schema.{Text}
use transcodex.Db.Sql.{Result, ok, err}
use transcodex.Env.{trim_space}
use transcodex.Redis.{Redis}
use transcodex.Run.{M, pure, attempt, ◌>>=◌}
use transcodex.Queue.{validate_priority}
use transcodex.Api.{Config}
use transcodex.Api.Enqueue.{create_queued_job}

-- strings.HasPrefix
abbrev pub has_prefix : Text → Text → Bool
has_prefix t [] = true
has_prefix [] (_ ∷ _) = false
has_prefix (x ∷ xs) (y ∷ ys) = x == y && has_prefix xs ys

-- A file of the form: filepath.Base of its name, its Content-Type, the type that its first bytes
-- show, its size, whether its head can be read, and whether the object store takes it.
pub record FilePart : Type 0 where
  pub base_name : Text
  pub content_type : Text
  pub detected_type : Text
  pub size : ℕ
  pub is_readable : Bool
  pub is_stored : Bool

-- A part of the form; a priority is none where its body cannot be read. The error of
-- http.MaxBytesReader, at the end of what it lets through of the request, reaches the loop as that of
-- the read which meets it: as a malformed part in place of the next, or as a part that cannot be
-- read or stored.
pub data Part : Type 0 where
  priority_part : Option Text → Part
  file_part : FilePart → Part
  other_part : Part
  malformed_part : Part

pub data UploadError : Type 0 where
  too_large invalid_video store_failed : UploadError

pub data Reply : Type 0 where
  accepted bad_request server_error : Reply

-- errUploadTooLarge and errInvalidVideoType are the client's errors.
abbrev pub reply_of : UploadError → Reply
reply_of store_failed = Reply.server_error
reply_of _ = Reply.bad_request

abbrev pub is_video : FilePart → Bool
is_video f =
    has_prefix f.detected_type (codes "video/")
    || (has_prefix f.content_type (codes "video/")
        && same_text f.detected_type (codes "application/octet-stream"))

abbrev pub file_name : FilePart → Text
file_name f =
    if same_text f.base_name (codes ".")
      || same_text f.base_name (codes "/")
      || same_text f.base_name []
    then codes "input"
    else f.base_name

abbrev pub upload_key : Config → Text → FilePart → Text
upload_key c job f = c.upload_prefix ++ codes "/" ++ job ++ codes "/" ++ file_name f

-- What the size-limited reader lets PutObject see: an error after the limit, if a byte is left.
abbrev pub is_too_large : Config → FilePart → Bool
is_too_large c f = ltb 0 f.size && ltb_ℤ c.upload_size_limit (pos f.size)

abbrev pub remove_object : Text → List Text → List Text
remove_object key = filter (λ k. not (same_text k key))

-- `removeStoredObject` does nothing for the empty key.
abbrev pub remove_stored : Option Text → List Text → List Text
remove_stored none objects = objects
remove_stored (some key) objects = remove_object key objects

pub data Stored : Type 0 where
  stored : Text → Stored
  refused : UploadError → Stored

-- `storeUpload`
unfoldable pub store_upload : Config → Text → FilePart → List Text → Stored × List Text
store_upload c job f objects =
    let key = upload_key c job f in
    if not f.is_readable
    then (refused store_failed, objects)
    else if not (is_video f)
    then (refused invalid_video, objects)
    else if is_too_large c f
    then (refused too_large, remove_object key objects)
    else if not f.is_stored
    then (refused store_failed, remove_object key objects)
    else (stored key, key ∷ objects)

-- The bytes of a character in UTF-8
abbrev pub width : ℕ → ℕ
width c = if ltb c 128 then 1 else if ltb c 2048 then 2 else if ltb c 65536 then 3 else 4

-- Bytes that are left of a character are no text, which Go reads as U+FFFD.
abbrev pub broken : ℕ → Text
broken zero = []
broken (suc _) = 65533 ∷ []

-- io.LimitReader, over a body in UTF-8
abbrev pub first_bytes : ℕ → Text → Text
first_bytes n [] = []
first_bytes n (c ∷ t) =
    let rest = first_bytes (n - width c) t in if leb (width c) n then c ∷ rest else broken n

-- `readPriority`
unfoldable pub read_priority : Option Text → Option ℤ
read_priority none = none
read_priority (some body) = atoi (trim_space (first_bytes 32 body))

-- What the loop over the parts has read: `priority`, and `inputFile` once fileUploaded is true.
pub record Form : Type 0 where
  pub priority : ℤ
  pub input_file : Option Text

pub data Parsed : Type 0 where
  parsed : Form → Parsed
  rejected : Reply → Parsed

-- The loop of `upload`.
unfoldable pub read_parts : Config → Text → List Part → Form → List Text → Parsed × List Text
read_parts c job [] form objects = (parsed form, objects)
read_parts c job (malformed_part ∷ ps) form objects = (rejected Reply.bad_request, objects)
read_parts c job (other_part ∷ ps) form objects = read_parts c job ps form objects
read_parts c job (priority_part body ∷ ps) form objects = elim (read_priority body) [
  | none ↦ (rejected Reply.bad_request, remove_stored form.input_file objects)
  | some p ↦
      let rest = read_parts c job ps (record form { priority = p }) objects in
      if validate_priority p
      then rest
      else (rejected Reply.bad_request, remove_stored form.input_file objects)
]
read_parts c job (file_part f ∷ ps) form objects =
    let (outcome, objects') = store_upload c job f objects in
    elim form.input_file [
      | some key ↦ (rejected Reply.bad_request, objects)
      | none ↦ elim outcome [
        | stored key ↦ read_parts c job ps (record form { input_file = some key }) objects'
        | refused e ↦ (rejected (reply_of e), objects')
      ]
    ]

abbrev pub empty_form : Form
empty_form = record { priority = pos 0; input_file = none }

module _ (r : Redis) where
  abbrev pub answer : Text → List Text → Result (Unit {0}) → M r (Reply × List Text)
  answer key objects (ok _) = pure (Reply.accepted, objects)
  answer key objects (err _) = pure (Reply.server_error, remove_object key objects)

  unfoldable pub submit : Config → ℕ → Parsed → List Text → M r (Reply × List Text)
  submit c job_id (rejected reply) objects = pure (reply, objects)
  submit c job_id (parsed form) objects = elim form.input_file [
    | none ↦ pure (Reply.bad_request, objects)
    | some key ↦ attempt (create_queued_job r c job_id key form.priority) >>= answer key objects
  ]

  -- `upload`, with the identifier of its job as a number and as a text
  unfoldable pub upload : Config → ℕ → Text → List Part → List Text → M r (Reply × List Text)
  unfolding submit
  upload c job_id job parts objects =
      let (form, objects') = read_parts c job parts empty_form objects in
      submit c job_id form objects'
