-- ===== src/Translator/Probes.antt =====
-- The probes of a container, read back from the deployment.
use environment_operator.Prelude.{List, [], ◌∷◌, Option, none, some, Text, ◌≡◌, refl, ap}
use environment_operator.Bitesize.Types.{Probe, Handler, HttpHeader, HttpGetAction, TcpSocketAction}
use environment_operator.Bitesize.Zero.{no_handler}
use environment_operator.Cluster.Scrape.Containers.{handler_of, convert_probe}
use environment_operator.Translator.Containers.{copy_headers, probe_of}

-- At most one action.
pub data IsSingle : Handler → Type 0 where
  no_action : IsSingle no_handler
  only_get : (get : HttpGetAction) → IsSingle (record no_handler { http_get = some get })
  only_exec : (command : List Text) → IsSingle (record no_handler { exec = some command })
  only_socket :
      (socket : TcpSocketAction) → IsSingle (record no_handler { tcp_socket = some socket })

copy_headers_lem : (hs : List HttpHeader) → copy_headers hs ≡ hs
unfolding copy_headers
copy_headers_lem [] = refl
copy_headers_lem (h ∷ hs) = ap (λ (t : List HttpHeader). h ∷ t) (copy_headers_lem hs)

-- A missing probe, or one whose handler has at most one action.
abbrev pub IsProbe : Option Probe → Type 0
IsProbe none = Unit
IsProbe (some p) = IsSingle p.handler

with_handler :
    (p : Probe) (h : Handler)
    → IsSingle h
    → convert_probe (probe_of (some (record p { handler = h }))) ≡ some (record p { handler = h })
unfolding convert_probe probe_of handler_of
with_handler p _ no_action = refl
with_handler p _ (only_get get) = rw (copy_headers_lem get.http_headers) refl
with_handler p _ (only_exec command) = refl
with_handler p _ (only_socket socket) = refl

-- A probe with at most one action is read back as it was.
pub convert_probe-probe_of : (p : Option Probe) → IsProbe p → convert_probe (probe_of p) ≡ p
unfolding convert_probe probe_of
convert_probe-probe_of none h = refl
convert_probe-probe_of (some p) h = with_handler p p.handler h
