-- ===== src/Conversion.antt =====
-- The requests that start a conversion: web_service/routes/convert.py with the upload checks of
-- web_service/validation.py, and web_service/routes/reconvert.py.
pub mod Upload
pub mod Charge
pub mod Convert
pub mod Reconvert
pub mod Spending
pub mod Fairness
pub mod Children
