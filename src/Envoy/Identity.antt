-- ===== src/Envoy/Identity.antt =====
-- Whose bucket a request of Envoy counts against, without the loops of the code.
use Prim.Native.String.{String}
use text.Mathlib.Text.{◌==◌ as str_eq}
use that_limit.Prelude.{
  ◌≡◌, refl, Option, none, some, List, [], ◌∷◌, ◌++◌, ok, err, if◌then◌else◌, arith,
}
use that_limit.Bucket.{IpAddr, public, protected}
use that_limit.Http.Host.{before}
use that_limit.Envoy.{
  unauthorized, ip_malformed, Entry, RateLimitRequest, Scan, found, so_far, scan_entries, scan,
  extract_identifier,
}

abbrev pub flatten : List (List Entry) → List Entry
flatten [] = []
flatten (d ∷ ds) = d ++ flatten ds

-- The value of the first entry with a key.
abbrev pub first : String → List Entry → Option String
first k [] = none
first k (e ∷ es) = if str_eq e.key k then some e.value else first k es

-- The value of the last one.
abbrev pub last : String → List Entry → Option String
last k [] = none
last k (e ∷ es) = elim (last k es) [
  | some v ↦ some v
  | none ↦ if str_eq e.key k then some e.value else none
]

abbrev head_of : Option String → Option String
head_of none = none
head_of (some v) = some (before b',' v)

abbrev or : Option String → Option String → Option String
or (some v) o = some v
or none o = o

-- What the loops give, from the address that they have so far.
abbrev scanned : Option String → List Entry → Scan
scanned ip es = elim (first "user_id" es) [
  | some v ↦ found v
  | none ↦ so_far (or (head_of (last "remote_address" es)) ip)
]

scan_entries_lem : (ip : Option String) (es : List Entry) → scan_entries ip es ≡ scanned ip es
unfolding scan_entries
scan_entries_lem ip [] = refl
scan_entries_lem ip (e ∷ es) = ground (
  arith,
  scan_entries_lem (if str_eq e.key "remote_address" then some (before b',' e.value) else ip) es,
)

first-append : (k : String) (xs ys : List Entry) → first k (xs ++ ys) ≡ or (first k xs) (first k ys)
first-append k [] ys = refl
first-append k (x ∷ xs) ys = ground (arith, first-append k xs ys)

last-append : (k : String) (xs ys : List Entry) → last k (xs ++ ys) ≡ or (last k ys) (last k xs)
last-append k [] ys = ground arith
last-append k (x ∷ xs) ys = ground (arith, last-append k xs ys)

scan_lem : (ip : Option String) (ds : List (List Entry)) → scan ip ds ≡ scanned ip (flatten ds)
unfolding scan
scan_lem ip [] = refl
scan_lem ip (d ∷ ds) = ground (
  arith,
  scan_entries_lem ip d,
  first-append "user_id" d (flatten ds),
  last-append "remote_address" d (flatten ds),
  scan_lem (or (head_of (last "remote_address" d)) ip) ds,
)

-- Over the entries of all descriptors in order, the first `user_id` decides, wherever it stands.
-- Without one the last `remote_address` does, by its first comma-separated part, which has to be an
-- address.
pub extract_identifier_lem :
    (parse_ip : String → Option IpAddr) (req : RateLimitRequest)
    → extract_identifier parse_ip req ≡ elim (first "user_id" (flatten req.descriptors)) [
      | some sub ↦ ok (protected sub)
      | none ↦ elim (last "remote_address" (flatten req.descriptors)) [
        | none ↦ err unauthorized
        | some v ↦ elim (parse_ip (before b',' v)) [
          | none ↦ err ip_malformed
          | some ip ↦ ok (public ip)
        ]
      ]
    ]
unfolding extract_identifier
extract_identifier_lem parse_ip req = ground (arith, scan_lem none req.descriptors)
