-- ===== src/Ingress.antt =====
-- internal/ingress: the correlation of a message with Postfix's log.
pub mod Correlation
