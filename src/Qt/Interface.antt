-- ===== src/Qt/Interface.antt =====
-- The operations of Qt that the code calls and that are not under the repository's control.
use webhost.Base.{ℕ, Bool, true, false, ℤ, Option}
use webhost.Qt.Text.{QChar, QString, QByteArray, QStringList}

-- A QHostAddress: none, an IPv4 address, or the text of an IPv6 address.
pub data HostAddress : Type 0 where
  null_address : HostAddress
  ipv4 : ℕ → HostAddress
  ipv6 : QString → HostAddress

-- `isNull`, and `toIPv4Address`
abbrev pub is_null : HostAddress → Bool
is_null null_address = true
is_null (ipv4 a) = false
is_null (ipv6 s) = false

abbrev pub to_ipv4 : HostAddress → ℕ
to_ipv4 null_address = 0
to_ipv4 (ipv4 a) = a
to_ipv4 (ipv6 s) = 0

-- A conversion of a text to a number gives the number, 0 on a failure, and the flag `ok`.
pub record Library : Type 0 where
  pub trimmed : QString → QString
  -- `QChar::isSpace`
  pub is_space : QChar → Bool
  pub to_lower : QString → QString
  pub split : QString → QString → QStringList
  pub to_utf8 : QString → QByteArray
  pub from_utf8 : QByteArray → QString
  pub to_ascii : QString → QByteArray
  pub from_ascii : QByteArray → QString
  pub to_int : QString → ℤ × Bool
  pub to_uint : QString → ℕ × Bool
  -- `toInt(&ok, 16)`
  pub to_int_hex : QString → ℤ × Bool
  pub to_long_long : QString → ℤ × Bool
  -- `sprintf("%d")` and `sprintf("%u.%u")`
  pub number : ℤ → QString
  pub version_text : ℕ → ℕ → QString
  -- the address that a text spells, `null_address` if it spells none
  pub host_address : QString → HostAddress
  -- `QVariant(s).toBool()`
  pub to_bool : QString → Bool
  -- `simplified`
  pub simplified : QString → QString
  -- `a.toFloat() <= b.toFloat()`
  pub float_le : QString → QString → Bool
  -- the current time as `ddd, dd MMM yyyy hh:mm:ss`, and the version of the build
  pub date_text : QString
  pub version : QString
  -- the lines that a QTextStream reads from a file's bytes, in the locale's encoding
  pub read_lines : QByteArray → QStringList
  pub from_base64 : QByteArray → QByteArray
  pub to_base64 : QByteArray → QByteArray
  -- what a read past the end of the array gives
  pub past_end : QByteArray → ℕ → ℕ
  -- the addresses and ports of a connection's socket, by the connection's number
  pub local_address : ℕ → QString
  pub local_port : ℕ → ℕ
  pub peer_address : ℕ → QString
  pub peer_port : ℕ → ℕ
  -- OpenSSL's SHA-1, if it is there, and what stands in the buffer behind the digest
  pub sha1 : QByteArray → Option QByteArray
  pub buffer_rest : QByteArray
