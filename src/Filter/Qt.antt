-- ===== src/Filter/Qt.antt =====
-- What src/util/ConnectionFilter.cpp takes from Qt and from floating point: functions on text, the
-- texts of addresses and numbers, doubles, and regular expressions.
use qiftop.Common.{ℕ, ◌≡◌, Bool, List, [], Option}
use qiftop.Flow.Types.{Text, Address}

-- `Num` is double and `Rx` is QRegularExpression.
pub record Qt (Num Rx : Type 0) : Type 0 where
  -- QChar::isSpace, QString::toLower, trimmed, split('\n')
  pub is_space : ℕ → Bool
  pub to_lower : Text → Text
  pub trimmed : Text → Text
  pub split_lines : Text → List Text
  -- contains, compare(…) == 0 and endsWith, all Qt::CaseInsensitive; the other text comes second
  pub contains_ci : Text → Text → Bool
  pub equals_ci : Text → Text → Bool
  pub ends_with_ci : Text → Text → Bool
  -- QHostAddress::toString, protocol() == IPv6Protocol, QString::number
  pub address_text : Address → Text
  pub is_ipv6 : Address → Bool
  pub decimal : ℕ → Text
  -- toDouble with its `ok`; std::isnan; double(n); the operators on doubles
  pub to_double : Text → Option Num
  pub is_nan : Num → Bool
  pub of_nat : ℕ → Num
  pub num_add : Num → Num → Num
  pub num_mul : Num → Num → Num
  pub num_eq : Num → Num → Bool
  pub num_lt : Num → Num → Bool
  pub num_le : Num → Num → Bool
  -- QRegularExpression(pattern, CaseInsensitiveOption), isValid, errorString, match().hasMatch()
  pub compile : Text → Rx
  pub rx_valid : Rx → Bool
  pub rx_error : Rx → Text
  pub rx_match : Rx → Text → Bool

-- Documented of QString::toLower: it leaves the empty text empty.
pub record IsQt {Num Rx : Type 0} (q : Qt Num Rx) : Type 0 where
  pub lower_empty : q.to_lower [] ≡ []
