-- ===== src/Crawler/Failures.antt =====
-- The classification of errors at the end of internal/crawler/detect.go. `strings.ToLower` is written
-- for ASCII letters, which the texts of the program's errors consist of.
use Prim.Native.String.{char_at, [] as empty_text, ◌∷◌ as ◌▹◌}
use Prim.Native.Char.{Char}
use text.Mathlib.Text.{find?}
use animehot.Common.{
  ℕ, String, Bool, true, false, ◌||◌, Option, none, some, List, [], ◌∷◌, if◌then◌else◌,
}
use animehot.Crawler.Pages.{
  CrawlError, browser_draining, browser_missing, context_cancelled, browser_state_failed,
  proxy_unavailable, proxy_unhealthy, needs_retry,
}

pub data ErrorType : Type 0 where
  unknown timeout blocked network parse_error : ErrorType

abbrev letter : Char → Option ℕ → Char
letter c none = c
letter c (some i) = char_at "abcdefghijklmnopqrstuvwxyz" i

abbrev to_lower : String → String
to_lower empty_text = empty_text
to_lower (c ▹ s) = letter c (find? "ABCDEFGHIJKLMNOPQRSTUVWXYZ" (c ▹ empty_text)) ▹ to_lower s

abbrev is_some : Option ℕ → Bool
is_some none = false
is_some (some i) = true

abbrev pub contains_any : String → List String → Bool
contains_any msg [] = false
contains_any msg (word ∷ words) = is_some (find? msg word) || contains_any msg words

abbrev pub blocked_keywords : List String
blocked_keywords =
    "blocked_page" ∷ "cloudflare" ∷ "attention required" ∷ "access denied" ∷ "403" ∷ "429"
    ∷ "forbidden" ∷ "too many requests" ∷ []

abbrev pub classify_message : String → ErrorType
classify_message msg =
    if contains_any msg blocked_keywords
    then blocked
    else if contains_any msg ("timeout" ∷ "deadline exceeded" ∷ [])
    then timeout
    else if contains_any msg ("net::" ∷ "connection" ∷ "navigate" ∷ [])
    then network
    else if contains_any msg ("parse" ∷ "extract" ∷ [])
    then parse_error
    else unknown

-- Whether the error wraps one of a context, and its text.
abbrev pub classify_error : Bool → String → ErrorType
classify_error of_context text = if of_context then timeout else classify_message (to_lower text)

abbrev pub is_for_proxy : ErrorType → Bool
is_for_proxy blocked = true
is_for_proxy timeout = true
is_for_proxy network = true
is_for_proxy parse_error = false
is_for_proxy unknown = false

abbrev pub wraps_context : CrawlError → Bool
wraps_context context_cancelled = true
wraps_context _ = false

-- Only the first three come from the pages; of what the others wrap, the text is left out.
abbrev pub text_of : CrawlError → String
text_of browser_draining = "browser draining, task needs retry"
text_of browser_missing = "browser not initialized"
text_of context_cancelled = "context cancelled during on_sale crawl: "
text_of browser_state_failed = "ensure browser state: "
text_of proxy_unavailable = "redis client is not initialized"
text_of proxy_unhealthy = "direct failed and proxy unhealthy: "
text_of needs_retry = "proxy activated, task needs retry: "

-- `shouldActivateProxy`
abbrev pub activates : CrawlError → Bool
activates e = is_for_proxy (classify_error (wraps_context e) (text_of e))
