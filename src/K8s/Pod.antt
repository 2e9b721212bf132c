-- ===== src/K8s/Pod.antt =====
-- pkg/util/k8s/pod.go and namespace.go: reading pods, their logs, and the namespace.
use environment_operator.Prelude.{Text, List, Result, ◌>>=◌, ok}
use environment_operator.K8s.Client.{PodLogOptions, log_options, list_options}

-- The requests: the stream of a pod's log, its text, the pods with a label, and a namespace.
pub record Requests (S P N L : Type 0) : Type 0 where
  pub stream : Text → PodLogOptions → S → Result L
  pub read : L → Text
  pub pods : Text → S → Result (List P)
  pub namespace : Text → S → Result N

module _ {S P N L : Type 0} (api : Requests S P N L) where
  -- What is read of the stream is returned, whatever ends the reading.
  unfoldable pub get_logs : Text → S → Result Text
  unfolding log_options
  get_logs name s = do stream ← api.stream name log_options s; ok (api.read stream)

  unfoldable pub list : S → Result (List P)
  unfolding list_options
  list s = api.pods list_options s

  unfoldable pub get : Text → S → Result N
  get name s = api.namespace name s
