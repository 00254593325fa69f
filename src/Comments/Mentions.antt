-- ===== src/Comments/Mentions.antt =====
-- src/iceberg/services/comments.py: the writers that a message names, and the jobs that tell them.
use Prim.Native.Char.{Char, code}
use iceberg_cti.Base.{
  text_length, prefix, same_id, zero, suc, [], ◌∷◌, some, nat_eq, string_eq, ℕ, String, none, elem,
  ◌||◌, select, ◌&&◌, leb, ◌==◌, map, not, show, Bool, List, if◌then◌else◌, join,
}
use iceberg_cti.Dissemination.Notify.{submit, Stamp}
use iceberg_cti.Outbox.{Submission, Table, Settings}
use iceberg_cti.Models.{end, pos, int, field, JobKind, is_stakeholder, Report, ReportComment, User}

-- `[A-Za-z0-9._-]`
abbrev pub in_handle : Char → Bool
in_handle c =
    let n = code c in
    (leb b'A' n && leb n b'Z')
    || (leb b'a' n && leb n b'z')
    || (leb b'0' n && leb n b'9')
    || n == b'.'
    || n == b'_'
    || n == b'-'

-- The longest run of such characters at the start.
abbrev pub handle_run : String → String
handle_run String.[] = String.[]
handle_run (String.◌∷◌ c s) = if in_handle c then String.◌∷◌ c (handle_run s) else String.[]

-- `_MENTION.findall`: after an `@`, at least two and at most 64 characters; `skip` characters belong to
-- the match found last.
unfoldable pub find_mentions : ℕ → String → List String
find_mentions skip String.[] = []
find_mentions (suc skip) (String.◌∷◌ c s) = find_mentions skip s
find_mentions zero (String.◌∷◌ c s) =
    let handle = prefix 64 (handle_run s) in
    let hit = handle ∷ find_mentions (text_length handle) s in
    let miss = find_mentions zero s in
    if code c == b'@' && leb 2 (text_length handle) then hit else miss

-- `email.split("@")[0]`
abbrev pub local_part : String → String
local_part String.[] = String.[]
local_part (String.◌∷◌ c s) = if code c == b'@' then String.[] else String.◌∷◌ c (local_part s)

-- `role in {Role.ANALYST, Role.REVIEWER, Role.ADMIN}`
abbrev pub is_writer : User → Bool
is_writer user = not (is_stakeholder user.role)

-- `lower` is Python's `str.lower`.
unfoldable pub resolve_mentions : (String → String) → List User → String → List ℕ
unfolding find_mentions
resolve_mentions lower users body =
    let handles = map lower (find_mentions zero body) in
    map (λ u. u.id) (select (λ u. is_writer u && elem (lower (local_part u.email)) handles) users)

abbrev pub mention_key : ℕ → ℕ → String
mention_key comment_id user_id =
    join "comment:" (join (show comment_id) (join ":mention:" (show user_id)))

abbrev pub mention_job : ReportComment → Report → ℕ → Submission
mention_job comment report user_id = record {
  kind = JobKind.editorial_mention;
  payload =
      field "comment_id" (int (pos comment.id))
        (field "report_id" (int (pos report.id)) (field "user_id" (int (pos user_id)) end));
  idempotency_key = mention_key comment.id user_id;
  max_attempts = none;
  available_at = none;
}

-- The users who are told, in order: nobody needs telling that they mentioned themselves.
unfoldable pub notify_mentions :
    Settings → (String → Stamp) → ReportComment → Report → List ℕ → Table → Table
notify_mentions settings stamps comment report [] table = table
notify_mentions settings stamps comment report (i ∷ is) table =
    let told =
      if same_id (some i) comment.author_id
      then table
      else submit settings stamps (mention_job comment report i) table in
    notify_mentions settings stamps comment report is told
