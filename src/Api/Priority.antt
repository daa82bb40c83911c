-- ===== src/Api/Priority.antt =====
-- `readPriority` of api/internal/server/handlers.go reads what a client writes in decimal.
use transcodex.Base.{ℕ, ◌+◌, ◌-◌, ◌≤◌, ◌≡◌, refl, ap, ◌∙◌, true, some, [], ◌∷◌, ◌++◌, arith, leb}
use transcodex.Base.Int.{ℤ}
use transcodex.Base.Text.{atoi}
use transcodex.Db.Schema.{Text}
use transcodex.Env.{trim_space}
use transcodex.Env.Decimals.{show, IsBlank, atoi-show, trim_space-show}
use transcodex.Queue.{validate_priority}
use transcodex.Api.Upload.{read_priority, width, first_bytes}

abbrev pub bytes : Text → ℕ
bytes [] = 0
bytes (c ∷ t) = width c + bytes t

first_bytes_all : (n : ℕ) (t : Text) → bytes t ≤ n → first_bytes n t ≡ t
first_bytes_all n [] h = refl
first_bytes_all n (c ∷ t) h =
    let fits : leb (width c) n ≡ true = ground (arith, h) in
    rw (fits, first_bytes_all (n - width c) t (omega (arith, h)))

-- The decimal text of every priority that is valid is read back as that priority, with white space
-- around it, if it takes no more than 32 bytes in all.
pub read_priority-show :
    (p : ℤ) (before after : Text)
    → validate_priority p ≡ true
    → IsBlank before
    → IsBlank after
    → bytes (before ++ (show p ++ after)) ≤ 32
    → read_priority (some (before ++ (show p ++ after))) ≡ some p
unfolding read_priority
read_priority-show p before after valid b b' short =
    ap (λ t. atoi (trim_space t)) (first_bytes_all 32 _ short)
    ∙ ap atoi (trim_space-show before p after b b')
    ∙ atoi-show p (ground arith) (ground arith)
