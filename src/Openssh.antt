-- ===== src/Openssh.antt =====
-- internal/openssh/parse.go: the comment and the public key of an unencrypted OpenSSH private key.
use sshush.Prelude.{
  Bool, not, ◌&&◌, ◌||◌, Option, none, some, [], ◌∷◌, ◌++◌, Bytes, length, take, drop, ltb, ◌==◌,
  bytes_eq, if◌then◌else◌, codes,
}
use sshush.Prelude.Outcome.{Outcome, ok, err, require, ◌>>=◌, ◌>>◌}
use sshush.External.{External}

abbrev pub openssh_auth_magic : Bytes
openssh_auth_magic = codes "openssh-key-v1" ++ 0 ∷ []

pub record ParsedKey : Type 0 where
  pub key_type : Bytes
  pub comment : Bytes
  pub public_key : Bytes
  pub private_key : Bytes
  -- Filled in by callers.
  pub filepath : Bytes

pub data ParseError : Type 0 where
  not_openssh_key encrypted_private_key bad_key_body : ParseError

abbrev pub Parse : Type 0 → Type 0
Parse = Outcome ParseError

abbrev or_err : {A : Type 0} → Option A → ParseError → Parse A
or_err none e = err e
or_err (some a) e = ok a

-- `len(key) < len(magic) || string(key[:len(magic)]) != magic`
has_magic : Bytes → Bool
has_magic key =
    not (ltb (length key) (length openssh_auth_magic))
    && bytes_eq (take (length openssh_auth_magic) key) openssh_auth_magic

-- The switch on the key type; a key of any other type has no comment.
comment_of : External → Bytes → Bytes → Parse Bytes
comment_of x key_type rest =
    if bytes_eq key_type (codes "ssh-ed25519")
    then or_err (x.unmarshal_ed25519_comment rest) bad_key_body
    else if bytes_eq key_type (codes "ssh-rsa")
    then or_err (x.unmarshal_rsa_comment rest) bad_key_body
    else if bytes_eq key_type (codes "ecdsa-sha2-nistp256")
        || bytes_eq key_type (codes "ecdsa-sha2-nistp384")
        || bytes_eq key_type (codes "ecdsa-sha2-nistp521")
    then or_err (x.unmarshal_ecdsa_comment rest) bad_key_body
    else ok []

unfoldable pub parse_private_key_blob : External → Bytes → Parse ParsedKey
unfolding has_magic comment_of
parse_private_key_blob x content = do
  block ← or_err (x.pem_decode content) not_openssh_key
  require (bytes_eq block.block_type (codes "OPENSSH PRIVATE KEY")) not_openssh_key
  let key = block.contents
  require (has_magic key) not_openssh_key
  outer ← or_err (x.unmarshal_outer (drop (length openssh_auth_magic) key)) not_openssh_key
  require (outer.num_keys == 1) not_openssh_key
  require (bytes_eq outer.cipher_name (codes "none")) encrypted_private_key
  pk ← or_err (x.unmarshal_inner outer.private_key) not_openssh_key
  require (pk.check1 == pk.check2) not_openssh_key
  comment ← comment_of x pk.key_type pk.rest
  ok (record {
    key_type = pk.key_type;
    comment = comment;
    public_key = outer.public_key;
    private_key = outer.private_key;
    filepath = [];
  })
