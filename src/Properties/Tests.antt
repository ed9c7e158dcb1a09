-- ===== src/Properties/Tests.antt =====
-- The configuration map at concrete properties.
use modern_cpp_kafka.Prelude.{◌≡◌, refl, [], ◌∷◌, text_ord, arith}
use modern_cpp_kafka.Properties.{str, PropertiesMap, is_sensitive, matches, show}
use modern_cpp_kafka.Properties.Hidden.{SameButSecrets, show-SameButSecrets}

abbrev secret_a : PropertiesMap
secret_a = ("client.id", str "a") ∷ ("sasl.password", str "hunter2") ∷ []

abbrev secret_b : PropertiesMap
secret_b = ("client.id", str "a") ∷ ("sasl.password", str "swordfish") ∷ []

secrets : SameButSecrets secret_a secret_b
unfolding is_sensitive matches
secrets = (refl, (λ h. refl), (refl, (λ h. absurd (ground (arith, h))), tt))

show-SameButSecrets_example : show (λ k. "T") secret_a ≡ show (λ k. "T") secret_b
show-SameButSecrets_example = show-SameButSecrets (λ k. "T") secret_a secret_b secrets
