-- ===== src/Translator/IngressLabels.antt =====
-- The labels of an ingress, read back.
use environment_operator.Prelude.{
  Text, TextMap, codes, text_at, lookup, ◌==◌, [], ◌∷◌, ◌++◌, ◌≡◌, refl,
}
use environment_operator.Bitesize.Types.{Service}
use environment_operator.Translator.Ingresses.{ingress_labels, optional}

pub text_at-ssl : (svc : Service) → text_at (codes "ssl") (ingress_labels svc) ≡ svc.ssl
unfolding text_at lookup ingress_labels ◌==◌
text_at-ssl svc = refl

-- The labels after the fixed ones.
abbrev set_labels : Text → Text → Text → TextMap Text
set_labels backend only http2 =
    optional (codes "httpsBackend") backend
    ++ ((codes "httpsOnly", only) ∷ optional (codes "http2") http2)

set_labels-backend : (b o h : Text) → text_at (codes "httpsBackend") (set_labels b o h) ≡ b
unfolding text_at lookup ◌==◌
set_labels-backend [] o [] = refl
set_labels-backend [] o (x ∷ h) = refl
set_labels-backend (x ∷ b) o h = refl

set_labels-only : (b o h : Text) → text_at (codes "httpsOnly") (set_labels b o h) ≡ o
unfolding text_at lookup ◌==◌
set_labels-only [] o h = refl
set_labels-only (x ∷ b) o h = refl

set_labels-http2 : (b o h : Text) → text_at (codes "http2") (set_labels b o h) ≡ h
unfolding text_at lookup ◌==◌
set_labels-http2 [] o [] = refl
set_labels-http2 [] o (x ∷ h) = refl
set_labels-http2 (x ∷ b) o [] = refl
set_labels-http2 (x ∷ b) o (y ∷ h) = refl

pub other_labels :
    (svc : Service)
    → (text_at (codes "httpsBackend") (ingress_labels svc) ≡ svc.https_backend)
      × (text_at (codes "httpsOnly") (ingress_labels svc) ≡ svc.https_only)
      × (text_at (codes "http2") (ingress_labels svc) ≡ svc.http2)
unfolding text_at lookup ingress_labels ◌==◌
other_labels svc = (
  set_labels-backend svc.https_backend svc.https_only svc.http2,
  set_labels-only svc.https_backend svc.https_only svc.http2,
  set_labels-http2 svc.https_backend svc.https_only svc.http2,
)
