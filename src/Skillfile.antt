-- ===== src/Skillfile.antt =====
-- internal/skillfile/skillfile.go: slugs, the SKILL.md codec, the ownership marker and the content
-- hash. Frontmatter is a map from JSON or YAML: its fields in a list. `yaml.v3`, `encoding/json`
-- and `crypto/sha256` are parameters.
pub mod Values
pub mod Slug
pub mod Codec
