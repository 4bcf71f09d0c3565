-- ===== src/Dns/HaRequest/Tests.antt =====
-- A request for the device of the sample query.
use pweb.Prelude.{◌≡◌, refl, some, Bytes, [], ◌∷◌, ◌++◌, arith, replicate}
use pweb.Dns.Wire.{ok, Out}
use pweb.Dns.HaRequest.{Endpoints, lower, remove_suffix, compose_request}
use pweb.Dns.HaRequest.Interop.{as_message, IsRequest, compose_request-serialize}
use pweb.Dns.HaRequest.Suffix.{IsOneOf, remove_suffix-IsOneOf}
use pweb.Dns.Samples.{codes, cam, question}
use pweb.Klink.Message.InitiateGet

-- The sample query asks for `cam.uw.`, and `.uw.` is the suffix.
abbrev device : Bytes
device = codes "cam"

abbrev suffix : Bytes
suffix = codes ".uw."

abbrev ends : Endpoints
ends = record { hahostname = codes "ha"; haport = 20000; nshostname = codes "ns"; nsport = 5353 }

device_found : remove_suffix (codes "cam.uw.") (suffix ∷ []) ≡ ok device
unfolding remove_suffix
device_found = refl

is_request : IsRequest ends 4660 device
is_request = record {
  haport_short = omega arith;
  nsport_short = omega arith;
  sequence_short = omega arith;
  fits = omega arith;
}

compose_request-serialize_example :
    let m = as_message ends 4660 device in
    (o : Out) × (compose_request ends (suffix ∷ []) cam ≡ ok o)
    × (pweb.Klink.Message.InitiateGet.serialize m ≡ some o.written)
    × (pweb.Klink.Message.InitiateGet.deserialize o.written ≡ some m)
compose_request-serialize_example =
    compose_request-serialize ends (suffix ∷ []) cam (question (codes "cam.uw.")) [] device refl
      device_found is_request

-- An end point whose host name does not fit.
abbrev far : Endpoints
far = record ends { hahostname = replicate 200 b'h' }

remove_suffix-IsOneOf_example :
    (ending : Bytes) × (codes "cam.uw." ≡ device ++ ending) × IsOneOf (lower ending) (suffix ∷ [])
remove_suffix-IsOneOf_example =
    remove_suffix-IsOneOf (codes "cam.uw.") (suffix ∷ []) device device_found
