-- ===== src/Interceptor/Tests.antt =====
-- Tests and instances for Interceptor.antt: a server that stores what it is sent.
use cel_admission_webhook.Common.{
  ℕ, zero, suc, ◌≡◌, refl, ◌↔◌, ap, true, false, none, some, [], ◌∷◌, ◌++◌, length, arith,
}
use cel_admission_webhook.Common.Errors.{Error, errorf, ok, err}
use mathlib.Core.List.{flat_map}
use cel_admission_webhook.Interceptor.{Request, Response, to_custom, piped}
use cel_admission_webhook.Interceptor.Replace.{Bytes, codes, starts, replace_from, replace_all}
use cel_admission_webhook.Interceptor.Scanner.{drop_cr, max_line, room, last_line, scan, lines}
use cel_admission_webhook.Interceptor.Scanner.Laws.{IsLine, LacksNewline, ended}
use cel_admission_webhook.Interceptor.Server.{Host, panicked, load_client_config, run_server}
use cel_admission_webhook.Interceptor.Laws.{piped-lines}
use cel_admission_webhook.Interceptor.Server.Laws.{run_server-panicked_iff}

abbrev group : Bytes
group = codes "group: admissionregistration.k8s.io/v1alpha1"

abbrev kind : Bytes
kind = codes "kind: Policy"

-- A body of two lines arrives as one.
test_piped :
    piped false (ended (group ∷ []) kind)
    ≡ codes "group: admissionregistration.x-k8s.io/v1alpha1kind: Policy"
unfolding piped lines scan last_line drop_cr flat_map replace_all replace_from starts
test_piped = refl

group-IsLine : IsLine max_line group
unfolding drop_cr
group-IsLine = record { inside = omega arith; fits = omega arith; no_cr = refl }

kind-IsLine : IsLine max_line kind
unfolding drop_cr
kind-IsLine = record { inside = omega arith; fits = omega arith; no_cr = refl }

filled : ℕ → Bytes
filled zero = []
filled (suc n) = b'a' ∷ filled n

length-filled : (n : ℕ) → length (filled n) ≡ n
unfolding filled
length-filled zero = refl
length-filled (suc n) = omega (arith, length-filled n)

drop_cr-filled : (n : ℕ) → drop_cr (filled n) ≡ filled n
unfolding filled drop_cr
drop_cr-filled zero = refl
drop_cr-filled (suc zero) = refl
drop_cr-filled (suc (suc n)) = ap (◌∷◌ b'a') (drop_cr-filled (suc n))

filled-LacksNewline : (n : ℕ) → LacksNewline (filled n)
unfolding filled
filled-LacksNewline zero = tt
filled-LacksNewline (suc n) = (omega arith, filled-LacksNewline n)

piped-lines_example :
    (piped false (ended (group ∷ []) kind) ≡ flat_map to_custom (group ∷ kind ∷ []))
    × (piped false (ended (group ∷ []) (filled 65536 ++ kind)) ≡ flat_map to_custom (group ∷ []))
piped-lines_example =
    piped-lines false (group ∷ []) kind (filled 65536) kind (group-IsLine, tt) kind-IsLine
      (filled-LacksNewline 65536) (omega (arith, length-filled 65536))

abbrev asked : Request
asked = record {
  path = codes "/apis/admissionregistration.k8s.io/v1alpha1/validatingadmissionpolicies";
  raw_path = [];
  header = ("Accept", codes "application/yaml") ∷ [];
  content_length = some 44;
  body = group;
  eof_with_data = false;
}

abbrev set_url : Request → Request
set_url out = out

abbrev store : Request → Response
store sent = record {
  request_path = [];
  header = [];
  content_length = none;
  body = sent.body;
  read_error = none;
}

-- A last line of 65536 bytes is sent if the body gives its end with its last bytes, and is not if it
-- gives its end after them.
filled-IsLine : IsLine (room true []) (filled 65536)
filled-IsLine = record {
  inside = filled-LacksNewline 65536;
  fits = omega (arith, length-filled 65536);
  no_cr = drop_cr-filled 65536;
}

full_line :
    piped true (ended (group ∷ []) (filled 65536)) ≡ flat_map to_custom (group ∷ filled 65536 ∷ [])
full_line =
    (piped-lines true (group ∷ []) (filled 65536) (filled 65537) [] (group-IsLine, tt) filled-IsLine
      (filled-LacksNewline 65537) (omega (arith, length-filled 65537))).0

-- A kubeconfig with two ways to log in has no transport.
abbrev two_logins : Host
two_logins = record {
  Config = ℕ;
  Url = ℕ;
  CertPool = Bytes;
  Certificate = Bytes;
  client_config = ok 1;
  in_cluster_config = err (errorf "not in a cluster");
  transport_config =
      λ _. err (errorf "execProvider and authProvider cannot be used in combination");
  parse_host = λ c. ok c;
  pool_of_pem = λ b. b;
  x509_key_pair = λ c k. ok c;
  listen_and_serve_tls = λ u roots certs. errorf "closed";
}

test_panicked : run_server two_logins ≡ panicked
unfolding run_server
test_panicked = refl

run_server-panicked_iff_example : (run_server two_logins ≡ panicked) ↔ (
    (config u : ℕ) × (e : Error) × (load_client_config two_logins ≡ ok config)
    × (two_logins.parse_host config ≡ ok u)
    × (two_logins.transport_config config ≡ err e))
run_server-panicked_iff_example = run_server-panicked_iff two_logins
