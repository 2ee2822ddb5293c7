-- ===== src/Contract.antt =====
-- Where the parts meet: what one part's theorems give to another.
pub mod Links
pub mod Decide
pub mod Skin
pub mod Status
mod SignIn
mod Captcha
mod Create
pub mod Tests
mod StatusTests
mod SignInTests
mod CaptchaTests
mod CreateTests
mod SkinTests
