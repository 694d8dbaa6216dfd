-- ===== src/Server/Response.antt =====
-- The responses that src/server.rs builds for a file: `build_304_response`, `build_head_response` and
-- `build_stream_response`. Header texts are lists of code points. Which header values the http crate
-- accepts is a parameter: a builder with another value gives an error.
pub mod ContentRange
use hugrs.Prelude.{
  ℕ, String, Bool, true, false, ◌&&◌, not, Option, none, some, List, [], ◌∷◌, ◌++◌, ℤ, pos, negsuc,
  suc, Result, ok, err, ◌==◌, is_some, if◌then◌else◌, chars, split, is_empty, same_chars, select,
}
use hugrs.Prelude.Decimal.{show_u64}
use hugrs.Metadata.Tables.{File}
use hugrs.Session.Ranges.{Range}

pub data AppError : Type 0 where
  anyhow : String → AppError
  unauthorized : AppError
  not_found : String → AppError

-- `into_response`: the status and the message of an error.
unfoldable pub into_response : AppError → ℕ × String
into_response (anyhow e) = (500, e)
into_response unauthorized = (401, "unauthorized")
into_response (not_found message) = (404, message)

abbrev pub Header : Type 0
Header = String × List ℕ

pub record Response (B : Type 0) : Type 0 where
  pub status : ℕ
  pub headers : List Header
  pub body : Option B

unfoldable pub show_i64 : ℤ → List ℕ
show_i64 (pos n) = show_u64 n
show_i64 (negsuc n) = 45 ∷ show_u64 (suc n)

-- `if let Some(value) = … { resp = resp.header(name, value) }`
unfoldable pub header_of : String → Option (List ℕ) → List Header
header_of name none = []
header_of name (some value) = (name, value) ∷ []

abbrev pub text_of : Option String → Option (List ℕ)
text_of none = none
text_of (some s) = some (chars s)

abbrev pub number_of : Option ℤ → Option (List ℕ)
number_of none = none
number_of (some n) = some (show_i64 n)

abbrev last_component : List (List ℕ) → Option (List ℕ)
last_component [] = none
last_component (c ∷ []) = some c
last_component (c ∷ d ∷ cs) = last_component (d ∷ cs)

-- Components of a path: empty ones and `.` do not count.
abbrev is_component : List ℕ → Bool
is_component c = not (is_empty c) && not (same_chars c (chars "."))

abbrev name_or : List ℕ → Option (List ℕ) → List ℕ
name_or path none = path
name_or path (some c) = if same_chars c (chars "..") then path else c

-- Path::new(path).file_name(), and the path itself where there is none.
unfoldable pub filename : List ℕ → List ℕ
filename path = name_or path (last_component (select is_component (split 47 path)))

unfoldable pub disposition : List ℕ → List ℕ
disposition path =
    chars "inline; filename*=UTF-8''"
    ++ filename path
    ++ chars "; filename=\""
    ++ filename path
    ++ 34 ∷ []

-- "bytes {start}-{end}/{total}", with `*` for an open end.
abbrev pub end_text : Option ℕ → List ℕ
end_text none = 42 ∷ []
end_text (some e) = show_u64 e

unfoldable pub content_range : ℕ → ℕ → Option ℕ → List ℕ
content_range total_size start end =
    chars "bytes " ++ (show_u64 start ++ 45 ∷ (end_text end ++ 47 ∷ show_u64 total_size))

unfoldable pub range_headers : File → Range → List Header
range_headers file none = []
range_headers file (some (start, end)) =
    ("Content-Range", content_range file.total_size start end) ∷ []

abbrev pub type_header : File → List Header
type_header file = header_of "Content-Type" (text_of file.content_type)

abbrev pub etag_header : File → List Header
etag_header file = header_of "ETag" (text_of file.etag)

unfoldable pub repo_headers : File → List Header
unfolding header_of
repo_headers file =
    header_of "X-Repo-Commit" (text_of file.x_repo_commit)
    ++ header_of "X-Linked-Size" (number_of file.x_linked_size)
    ++ header_of "X-Linked-ETag" (text_of file.x_linked_etag)

abbrev pub all_values : (List ℕ → Bool) → List Header → Bool
all_values is_value [] = true
all_values is_value (h ∷ hs) = is_value h.1 && all_values is_value hs

module _ {B : Type 0} (is_value : List ℕ → Bool) where
  -- `resp.body(…)`
  unfoldable pub built : Response B → Result AppError (Response B)
  built r = if all_values is_value r.headers then ok r else err (anyhow "invalid header value")

  unfoldable pub build_304_response : File → Result AppError (Response B)
  unfolding built header_of
  build_304_response file = built (record {
    status = 304;
    headers =
        ("Content-Length", show_u64 file.total_size)
          ∷ ("Accept-Ranges", chars "bytes")
          ∷ etag_header file
        ++ type_header file;
    body = none;
  })

  unfoldable pub build_head_response : File → List ℕ → Result AppError (Response B)
  unfolding built header_of repo_headers
  build_head_response file path = built (record {
    status = 200;
    headers =
        ("Content-Disposition", disposition path)
          ∷ ("Content-Length", show_u64 file.total_size)
          ∷ ("Accept-Ranges", chars "bytes")
          ∷ type_header file
        ++ etag_header file
        ++ repo_headers file;
    body = none;
  })

  unfoldable pub build_stream_response :
      File → ℕ → B → List ℕ → Range → Result AppError (Response B)
  unfolding built header_of range_headers repo_headers
  build_stream_response file content_length stream path range = built (record {
    status = if is_some range then 206 else 200;
    headers =
        ("Content-Disposition", disposition path)
          ∷ ("Content-Length", show_u64 content_length)
          ∷ ("Accept-Ranges", chars "bytes")
          ∷ range_headers file range
        ++ type_header file
        ++ etag_header file
        ++ repo_headers file;
    body = some stream;
  })
