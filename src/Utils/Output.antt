-- ===== src/Utils/Output.antt =====
-- pkg/utils/utils.go: printing a pod, and the configuration of pods.
use kubesim.Prelude.{Option, none, some, ◌++◌, String, str_eq, if◌then◌else◌}
use kubesim.Prelude.Text.{Text, client, message}
use kubesim.Prelude.Exec.{Exec, ◌>>=◌, pure, raise, wrap, modify}
use kubesim.Platform.{Pod}
use kubesim.Utils.{PodsConfig}

abbrev or_client : {S A : Type 0} → Option A → Exec S A
or_client none = raise client
or_client (some a) = pure a

-- The serializers of the API machinery: `SerializerInfoForMediaType`, and encoding with one.
pub record Codecs (Q : Type 0) : Type 1 where
  pub Serializer : Type 0
  pub serializer_for : String → Option Serializer
  pub encode : Serializer → Pod Q → Option Text

unfoldable pub content_type : String → String
content_type format =
    if str_eq format "json"
    then "application/json"
    else if str_eq format "yaml"
    then "application/yaml"
    else "application/yaml"

module _ {Q : Type 0} (c : Codecs Q) where
  abbrev registered : Option c.Serializer → Exec Text c.Serializer
  registered none = raise (message "serializer not registered")
  registered (some s) = pure s

  -- `PrintPod`, on what is printed so far; the error of a missing serializer names the media type.
  unfoldable pub print_pod : Pod Q → String → Exec Text Unit
  unfolding content_type
  print_pod pod format = do
    info ← registered (c.serializer_for (content_type format))
    stream ← wrap "Failed to create pod" (or_client (c.encode info pod))
    modify (λ printed. printed ++ stream)

-- `PodsConfigParse`, with the JSON library's decoder.
unfoldable pub pods_config_parse :
    {S Body : Type 0} → (Body → Option PodsConfig) → Body → Exec S PodsConfig
pods_config_parse decode body =
    wrap "Parse to PodsConfig, json unmarshal err" (or_client (decode body))
